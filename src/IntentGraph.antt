-- ===== src/IntentGraph.antt =====
-- core/intent_graph.py: the plan of an agent as a graph, its validation and its builder. A message of
-- `validate` is a constructor of `Problem`; of a node's metadata only the action is read.
pub mod Paths
pub mod Fuel
pub mod Validate
pub mod Accepts
use verigate.Base.{
  inl, inr, refl, [], ◌∷◌, ◌++◌, none, some, true, false, zero, suc, ok, err, ◌≡◌, ◌==◌, ◌>>=◌,
  ◌>>◌, string_eq, nat_eq, Eq, String, Option, Bool, List, ℕ, Result, key_error, first_row,
  where_rows, ◌&&◌, map, contains, not, if◌then◌else◌, length, ◌||◌, ◌+◌, nonempty, any,
  value_error, has_duplicate,
}
use verigate.Models.{ActionIntent}

pub data IntentNodeType : Type 0 where
  goal intent sub_intent action consequence : IntentNodeType

pub data IntentRelation : Type 0 where
  contains_node depends_on produces causes : IntentRelation

pub IntentNodeType-discrete : Discrete IntentNodeType
IntentNodeType-discrete = hlevel

pub IntentRelation-discrete : Discrete IntentRelation
IntentRelation-discrete = hlevel

instance unfoldable pub node_type_eq : Eq IntentNodeType
unfolding IntentNodeType-discrete
node_type_eq = record { dec = IntentNodeType-discrete }

instance unfoldable pub relation_eq : Eq IntentRelation
unfolding IntentRelation-discrete
relation_eq = record { dec = IntentRelation-discrete }

-- `action_intent` is that entry of the node's metadata, where it is an object.
pub record IntentNode : Type 0 where
  pub node_id : String
  pub node_type : IntentNodeType
  pub label : String
  pub action_intent : Option ActionIntent

pub record IntentEdge : Type 0 where
  pub source_id : String
  pub relation : IntentRelation
  pub target_id : String

pub record IntentGraph : Type 0 where
  pub graph_id : String
  pub nodes : List IntentNode
  pub edges : List IntentEdge

-- `exhausted` is no message of the source: it tells a search whose fuel ran out.
pub data Problem : Type 0 where
  duplicate_ids unknown_node dependency_cycle exhausted : Problem

pub Problem-discrete : Discrete Problem
Problem-discrete = hlevel

instance unfoldable pub problem_eq : Eq Problem
unfolding Problem-discrete
problem_eq = record { dec = Problem-discrete }

abbrev or_unknown : Option IntentNode → Result IntentNode
or_unknown none = err (key_error "unknown intent graph node")
or_unknown (some n) = ok n

unfoldable pub node : IntentGraph → String → Result IntentNode
node g node_id = or_unknown (first_row (λ n. n.node_id == node_id) g.nodes)

abbrev is_action : IntentNode → Bool
is_action n = n.node_type == action

unfoldable pub actions : IntentGraph → List IntentNode
unfolding node_type_eq
actions g = where_rows is_action g.nodes

abbrev pub is_dependency : String → IntentEdge → Bool
is_dependency node_id e = e.source_id == node_id && e.relation == depends_on

abbrev pub targets_of : List IntentEdge → List String
targets_of = map (λ (e : IntentEdge). e.target_id)

unfoldable pub dependencies_of : IntentGraph → String → List String
unfolding relation_eq
dependencies_of g node_id = targets_of (where_rows (is_dependency node_id) g.edges)

abbrev pub node_ids : IntentGraph → List String
node_ids g = map (λ (n : IntentNode). n.node_id) g.nodes

abbrev pub is_unknown : List String → IntentEdge → Bool
is_unknown ids e = not (contains ids e.source_id) || not (contains ids e.target_id)

-- the loop over the edges
abbrev pub unknown_edges : List String → List IntentEdge → List Problem
unknown_edges ids [] = []
unknown_edges ids (e ∷ es) =
    if is_unknown ids e then unknown_node ∷ unknown_edges ids es else unknown_edges ids es

-- The variables of the depth-first search; the sets are lists, read by membership.
pub record Search : Type 0 where
  pub visiting : List String
  pub visited : List String
  pub errors : List Problem

-- `visiting.remove(node_id)`
abbrev pub remove : List String → String → List String
remove [] x = []
remove (y ∷ ys) x = if x == y then ys else y ∷ remove ys x

-- the loop over the dependencies
abbrev pub visit_all : (String → Search → Search) → List String → Search → Search
visit_all f [] st = st
visit_all f (d ∷ ds) st = visit_all f ds (f d st)

abbrev pub enter : String → Search → Search
enter node_id st = record st { visiting = node_id ∷ st.visiting }

abbrev pub leave : String → Search → Search
leave node_id st = record st {
  visiting = remove st.visiting node_id;
  visited = node_id ∷ st.visited;
}

-- The inner function `visit`, on fuel.
unfoldable pub visit : IntentGraph → ℕ → String → Search → Search
visit g zero node_id st = record st { errors = st.errors ++ exhausted ∷ [] }
visit g (suc fuel) node_id st =
    let inner =
      leave node_id (visit_all (visit g fuel) (dependencies_of g node_id) (enter node_id st)) in
    if contains st.visiting node_id
    then record st { errors = st.errors ++ dependency_cycle ∷ [] }
    else if contains st.visited node_id
    then st
    else inner

-- One round for each id on a path of distinct ids, and one more.
abbrev pub search_fuel : IntentGraph → ℕ
search_fuel g = suc (length (node_ids g) + length g.edges)

-- `dict.fromkeys(errors)`
abbrev pub first_ones : List Problem → List Problem → List Problem
first_ones seen [] = []
first_ones seen (p ∷ ps) =
    if contains seen p then first_ones seen ps else p ∷ first_ones (p ∷ seen) ps

abbrev pub early_errors : IntentGraph → List Problem
early_errors g =
    (if has_duplicate (node_ids g) then duplicate_ids ∷ [] else [])
    ++ unknown_edges (node_ids g) g.edges

unfoldable pub all_errors : IntentGraph → List Problem
unfolding visit
all_errors g =
    (visit_all (visit g (search_fuel g)) (node_ids g)
      (record { visiting = []; visited = []; errors = early_errors g })).errors

unfoldable pub validate : IntentGraph → Bool × List Problem
unfolding all_errors problem_eq
validate g = (not (nonempty (all_errors g)), first_ones [] (all_errors g))

-- The builder; `_nodes` keeps the order of insertion.
pub record IntentGraphBuilder : Type 0 where
  pub graph_id : String
  pub nodes : List IntentNode
  pub edges : List IntentEdge

unfoldable pub add_node : IntentGraphBuilder → IntentNode → Result IntentGraphBuilder
add_node b n =
    if any (λ m. m.node_id == n.node_id) b.nodes
    then err (value_error "duplicate intent graph node")
    else ok (record b { nodes = b.nodes ++ n ∷ [] })

abbrev label_or : Option String → String → String
label_or none action_type = action_type
label_or (some label) action_type = if label == "" then action_type else label

unfoldable pub add_action :
    IntentGraphBuilder → ActionIntent → Option String → Result IntentGraphBuilder
unfolding add_node
add_action b a label = add_node b (record {
  node_id = a.intent_id;
  node_type = action;
  label = label_or label a.action_type;
  action_intent = some a;
})

unfoldable pub link :
    IntentGraphBuilder → String → IntentRelation → String → Result IntentGraphBuilder
link b source_id relation target_id =
    if not (any (λ m. m.node_id == source_id) b.nodes)
      || not (any (λ m. m.node_id == target_id) b.nodes)
    then err (key_error "intent graph link references unknown node")
    else ok (record b {
      edges =
          b.edges
          ++ (record { source_id = source_id; relation = relation; target_id = target_id }) ∷ [];
    })

abbrev pub graph_of : IntentGraphBuilder → IntentGraph
graph_of b = record { graph_id = b.graph_id; nodes = b.nodes; edges = b.edges }

unfoldable pub build : IntentGraphBuilder → Result IntentGraph
unfolding validate
build b =
    if not (validate (graph_of b)).0
    then err (value_error "intent graph is not valid")
    else ok (graph_of b)
