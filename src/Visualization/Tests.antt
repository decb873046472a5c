-- ===== src/Visualization/Tests.antt =====
-- A label with a quote and a backslash, and the text of a small graph.
use Prim.Native.Char.{Char}
use Prim.Native.String.{◌++◌}
use ros2trace_analyzer.Common.{true, false, some, [], ◌∷◌, ◌≡◌, refl}
use ros2trace_analyzer.Utils.Format.{decimal, debug_text}
use ros2trace_analyzer.Visualization.{
  Graph, escape_string, add_node, add_edge, add_cluster, graph_text,
}
use ros2trace_analyzer.Visualization.Escapes.{read_quoted, read_quoted-escape_string}

read_quoted-escape_string_example :
    read_quoted false (escape_string "a\\b \"c\"" ++ ("\"" ++ " next"))
    ≡ some ("a\\b \"c\"", " next")
read_quoted-escape_string_example = read_quoted-escape_string "a\\b \"c\"" " next"

escaped : escape_string "a\\b \"c\"\n" ≡ "a\\\\b \\\"c\\\"\\n"
unfolding escape_string
escaped = refl

abbrev empty : Graph
empty = record { nodes = []; edges = []; clusters = []; attributes = [] }

two_nodes :
    graph_text
      (λ (c : Char). true)
      (add_cluster "n" (0 ∷ []) (add_edge 0 1 "e" (add_node "b" 1 (add_node "a" 0 empty))))
    ≡ "digraph {\n\tgraph []\n\t0 [label=\"a\", shape=\"box\"]\n\t1 [label=\"b\", shape=\"box\"]\n\t0 -> 1 [label=\"e\"]\n\tsubgraph cluster_0 {\n\t\tlabel=\"n\"\n\t\tgraph [style=\"dotted\"]\n\t\t0; \n\t}\n\n}\n"
unfolding graph_text add_cluster add_edge add_node decimal debug_text
two_nodes = refl
