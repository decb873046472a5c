-- ===== src/Processor/Invariants/Objects/Publications.antt =====
-- The handlers for publications keep the objects consistent.
use ros2trace_analyzer.Common.{ℤ, String, Ref, Bool, true, false, Option, none, some, ℕ}
use ros2trace_analyzer.Utils.Known.{Known}
use ros2trace_analyzer.Model.Publisher.{Publisher}
use ros2trace_analyzer.Model.Publisher.Consistency as PublisherConsistency
use ros2trace_analyzer.Model.PublicationMessage.{Time}
use ros2trace_analyzer.Model.PublicationMessage.Consistency as MessageConsistency
use ros2trace_analyzer.Events.Raw.Ros2.{RclcppPublish, RclPublish, RmwPublish, RclcppIntraPublish}
use ros2trace_analyzer.Processor.Id.{ContextId}
use ros2trace_analyzer.Processor.Exec.Keeps.{Keeps, keeps_rules}
use ros2trace_analyzer.Processor.Exec.Objects.{object_rules}
use ros2trace_analyzer.Processor.Publications.{
  process_rclcpp_publish, unwrap_or_new, process_rcl_publish, mismatch, both_publishers,
  topic_of_publication, publisher_by_rmw, insert_published, record_publication, process_rmw_publish,
  process_rclcpp_intra_publish,
}
use ros2trace_analyzer.Processor.Invariants.Objects.Defs.{ObjectsAreConsistent as P, heaps}

ruleset rules = (
  object_rules, keeps_rules, heaps, PublisherConsistency.consistency,
  MessageConsistency.consistency,
)

pub process_rclcpp_publish-Keeps :
    (e : RclcppPublish) (t : Time) (c : ContextId) → Keeps P (process_rclcpp_publish e t c)
unfolding process_rclcpp_publish
process_rclcpp_publish-Keeps e t c = search rules depth 12

unwrap_or_new-Keeps : (ptr : ℕ) (o : Option Ref) → Keeps P (unwrap_or_new ptr o)
unfolding unwrap_or_new
unwrap_or_new-Keeps ptr none = search rules
unwrap_or_new-Keeps ptr (some r) = search rules

pub process_rcl_publish-Keeps :
    (e : RclPublish) (t : Time) (c : ContextId) → Keeps P (process_rcl_publish e t c)
unfolding process_rcl_publish
process_rcl_publish-Keeps e t c = search (rules, unwrap_or_new-Keeps) depth 16

mismatch-Keeps :
    (c : ContextId) (m p : Ref) (mp : Publisher) (b : Bool) → Keeps P (mismatch c m p mp b)
unfolding mismatch
mismatch-Keeps c m p mp true = search rules depth 12
mismatch-Keeps c m p mp false = search rules

both_publishers-Keeps :
    (c : ContextId) (m p q : Ref) (mp : Publisher) (b : Bool)
    → Keeps P (both_publishers c m p q mp b)
unfolding both_publishers
both_publishers-Keeps c m p q mp true = search rules
both_publishers-Keeps c m p q mp false = search mismatch-Keeps

topic_of_publication-Keeps :
    (c : ContextId) (m : Ref) (o o' : Option Ref) → Keeps P (topic_of_publication c m o o')
unfolding topic_of_publication
topic_of_publication-Keeps c m (some p) (some q) = search (keeps_rules, both_publishers-Keeps)
topic_of_publication-Keeps c m (some p) none = search rules depth 8
topic_of_publication-Keeps c m none (some q) = search rules
topic_of_publication-Keeps c m none none = search rules

publisher_by_rmw-Keeps : (c : ContextId) (o : Option ℕ) → Keeps P (publisher_by_rmw c o)
unfolding publisher_by_rmw
publisher_by_rmw-Keeps c none = search keeps_rules
publisher_by_rmw-Keeps c (some h) = search keeps_rules

insert_published-Keeps :
    (ts : ℤ) (topic : Known String) (m : Ref) → Keeps P (insert_published ts topic m)
unfolding insert_published
insert_published-Keeps ts topic m = record { at = λ w h. h }

record_publication-Keeps :
    (t : Time) (topic : Known String) (m : Ref) (o : Option ℤ)
    → Keeps P (record_publication t topic m o)
unfolding record_publication
record_publication-Keeps t topic m (some ts) = search (rules, insert_published-Keeps) depth 8
record_publication-Keeps t topic m none = search rules

pub process_rmw_publish-Keeps :
    (e : RmwPublish) (t : Time) (c : ContextId) → Keeps P (process_rmw_publish e t c)
unfolding process_rmw_publish
process_rmw_publish-Keeps e t c =
    search
      (
        keeps_rules, unwrap_or_new-Keeps, publisher_by_rmw-Keeps, topic_of_publication-Keeps,
        record_publication-Keeps,
      )
      depth 16

pub process_rclcpp_intra_publish-Keeps :
    (e : RclcppIntraPublish) (c : ContextId) → Keeps P (process_rclcpp_intra_publish e c)
unfolding process_rclcpp_intra_publish
process_rclcpp_intra_publish-Keeps e c = search rules depth 12
