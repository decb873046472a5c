-- ===== src/Visualization.antt =====
-- src/visualization/graphviz_export.rs: graphs and their text in the DOT language. The attributes of an element are a
-- list with keys; its order stands for the unspecified one of `HashMap`.
pub mod Escapes
pub mod Tests
use Prim.Native.Char.{Char, code}
use Prim.Native.String.{◌++◌}
use ros2trace_analyzer.Common.{ℕ, ◌==◌, Bool, String, List, [], ◌∷◌, length, if◌then◌else◌}
use mathlib.Core.List.{◌++◌ as ◌append◌}
use ros2trace_analyzer.Utils.Format.{decimal, debug_text}
use ros2trace_analyzer.Analysis.Table.{Table, insert}
use ros2trace_analyzer.Analysis.CallbackDependency.{topic_key}

abbrev pub Attributes : Type 0
Attributes = Table String String

pub data NodeShape : Type 0 where
  box ellipse : NodeShape

unfoldable pub shape_text : NodeShape → String
shape_text NodeShape.box = "box"
shape_text NodeShape.ellipse = "ellipse"

pub record GraphNode : Type 0 where
  pub id : ℕ
  pub attributes : Attributes

pub record GraphEdge : Type 0 where
  pub src : ℕ
  pub dst : ℕ
  pub attributes : Attributes

pub record GraphCluster : Type 0 where
  pub id : ℕ
  pub node_ids : List ℕ
  pub label : String

pub record Graph : Type 0 where
  pub nodes : List GraphNode
  pub edges : List GraphEdge
  pub clusters : List GraphCluster
  pub attributes : Attributes

-- `str::replace` of one character.
unfoldable pub replace : ℕ → String → String → String
replace from to String.[] = ""
replace from to (String.◌∷◌ c s) =
    (if code c == from then to else String.◌∷◌ c String.[]) ++ replace from to s

unfoldable pub escape_string : String → String
unfolding replace
escape_string s = replace 10 "\\n" (replace 34 "\\\"" (replace 92 "\\\\" s))

unfoldable pub new_node : ℕ → String → GraphNode
unfolding insert shape_text
new_node id name = record {
  id = id;
  attributes = insert "shape" (shape_text NodeShape.box) (insert "label" name []);
}

unfoldable pub set_shape : NodeShape → GraphNode → GraphNode
unfolding insert shape_text
set_shape shape n = record n { attributes = insert "shape" (shape_text shape) n.attributes }

unfoldable pub set_node_attribute : String → String → GraphNode → GraphNode
unfolding insert
set_node_attribute key value n = record n { attributes = insert key value n.attributes }

unfoldable pub new_edge : ℕ → ℕ → String → GraphEdge
unfolding insert
new_edge src dst label = record { src = src; dst = dst; attributes = insert "label" label [] }

unfoldable pub set_edge_attribute : String → String → GraphEdge → GraphEdge
unfolding insert
set_edge_attribute key value e = record e { attributes = insert key value e.attributes }

unfoldable pub new_cluster : ℕ → String → List ℕ → GraphCluster
unfolding escape_string
new_cluster id label node_ids = record { id = id; node_ids = node_ids; label = escape_string label }

unfoldable pub add_node : String → ℕ → Graph → Graph
unfolding new_node
add_node name id g = record g { nodes = g.nodes append (new_node id name ∷ []) }

unfoldable pub add_edge : ℕ → ℕ → String → Graph → Graph
unfolding new_edge
add_edge source target label g = record g {
  edges = g.edges append (new_edge source target label ∷ []);
}

-- The number of a cluster is its place.
unfoldable pub add_cluster : String → List ℕ → Graph → Graph
unfolding new_cluster
add_cluster name node_ids g = record g {
  clusters = g.clusters append (new_cluster (length g.clusters) name node_ids ∷ []);
}

unfoldable pub set_attribute : String → String → Graph → Graph
unfolding insert
set_attribute key value g = record g { attributes = insert key value g.attributes }

-- The lines of a list, each behind a tab.
module _ {A : Type 0} (show : A → String) where
  unfoldable pub tabbed_lines : List A → String
  tabbed_lines [] = ""
  tabbed_lines (a ∷ rest) = "\t" ++ (show a ++ ("\n" ++ tabbed_lines rest))

unfoldable pub node_ids_text : List ℕ → String
node_ids_text [] = ""
node_ids_text (id ∷ rest) = decimal id ++ ("; " ++ node_ids_text rest)

unfoldable pub cluster_text : GraphCluster → String
unfolding node_ids_text
cluster_text c =
    "\tsubgraph cluster_"
    ++ (decimal c.id
        ++ (" {\n\t\tlabel=\""
            ++ (c.label
                ++ ("\"\n\t\tgraph [style=\"dotted\"]\n\t\t"
                    ++ (node_ids_text c.node_ids ++ "\n\t}\n")))))

unfoldable pub clusters_text : List GraphCluster → String
unfolding cluster_text
clusters_text [] = ""
clusters_text (c ∷ rest) = cluster_text c ++ ("\n" ++ clusters_text rest)

module _ (printable : Char → Bool) where
  -- The attributes behind the first one.
  unfoldable pub more_attributes : Attributes → String
  more_attributes [] = "]"
  more_attributes ((key, value) ∷ rest) =
      ", " ++ (key ++ ("=" ++ (debug_text printable value ++ more_attributes rest)))

  unfoldable pub attributes_text : Attributes → String
  unfolding more_attributes
  attributes_text [] = "[]"
  attributes_text ((key, value) ∷ rest) =
      "[" ++ (key ++ ("=" ++ (debug_text printable value ++ more_attributes rest)))

  unfoldable pub node_text : GraphNode → String
  unfolding attributes_text
  node_text n = decimal n.id ++ (" " ++ attributes_text n.attributes)

  unfoldable pub edge_text : GraphEdge → String
  unfolding attributes_text
  edge_text e =
      decimal e.src ++ (" -> " ++ (decimal e.dst ++ (" " ++ attributes_text e.attributes)))

  unfoldable pub graph_text : Graph → String
  unfolding attributes_text node_text edge_text tabbed_lines clusters_text
  graph_text g =
      "digraph {\n\tgraph "
      ++ (attributes_text g.attributes
          ++ ("\n"
              ++ (tabbed_lines node_text g.nodes
                  ++ (tabbed_lines edge_text g.edges ++ (clusters_text g.clusters ++ "}\n")))))
