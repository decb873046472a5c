-- ===== src/Analysis/DependencyGraph/Ranges.antt =====
-- `EdgeWeightStats` of src/analysis/dependency_graph.rs: the least and the greatest latency of the edges of a kind.
pub mod Bounds
use ros2trace_analyzer.Common.{
  ℤ, i64_max, i64_min, is_i64, int_eq, leb_ℤ, ◌≤ℤ◌, Bool, true, false, ◌&&◌, List, [], ◌∷◌, Option,
  none, some, ◌≡◌, arith, if◌then◌else◌,
}
use ros2trace_analyzer.Analysis.DependencyGraph.Graph.{EdgeType}

abbrev pub min : ℤ → ℤ → ℤ
min a b = if leb_ℤ a b then a else b

abbrev pub max : ℤ → ℤ → ℤ
max a b = if leb_ℤ a b then b else a

abbrev pub Range : Type 0
Range = ℤ × ℤ

-- The range of no latency.
abbrev pub no_range : Range
no_range = (i64_max, i64_min)

-- The lines that the three `update` methods share.
unfoldable pub update_range : ℤ → Range → Range
update_range latency range = (min range.0 latency, max range.1 latency)

unfoldable pub validate_range : Range → Option Range
validate_range range = if int_eq range.0 i64_max && int_eq range.1 i64_min then none else some range

pub record EdgeWeightStats : Type 0 where
  pub subscriber_to_callback : Range
  pub timer_to_callback : Range
  pub callback_to_publisher : Range

abbrev pub default : EdgeWeightStats
default = record {
  subscriber_to_callback = no_range;
  timer_to_callback = no_range;
  callback_to_publisher = no_range;
}

unfoldable pub update_subscriber_to_callback : ℤ → EdgeWeightStats → EdgeWeightStats
unfolding update_range
update_subscriber_to_callback latency s = record s {
  subscriber_to_callback = update_range latency s.subscriber_to_callback;
}

unfoldable pub update_timer_to_callback : ℤ → EdgeWeightStats → EdgeWeightStats
unfolding update_range
update_timer_to_callback latency s = record s {
  timer_to_callback = update_range latency s.timer_to_callback;
}

unfoldable pub update_callback_to_publisher : ℤ → EdgeWeightStats → EdgeWeightStats
unfolding update_range
update_callback_to_publisher latency s = record s {
  callback_to_publisher = update_range latency s.callback_to_publisher;
}

unfoldable pub range_for_type : EdgeWeightStats → EdgeType → Option Range
unfolding validate_range
range_for_type s EdgeType.subscriber_callback_invocation = validate_range s.subscriber_to_callback
range_for_type s EdgeType.timer_callback_invocation = validate_range s.timer_to_callback
range_for_type s EdgeType.publication_in_callback = validate_range s.callback_to_publisher
range_for_type s EdgeType.service_callback_invocation = none
range_for_type s EdgeType.publisher_subscriber_communication = none
