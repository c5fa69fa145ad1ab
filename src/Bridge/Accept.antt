-- ===== src/Bridge/Accept.antt =====
-- The checks of ValidateChunkGraphPlan (bridge/validate.go) on the edges of a plan and on the graph that they
-- form. An issue has its subject; its code, message and field are not modelled.
pub mod Adjacency
pub mod Sound
use satis.Base.{
  ℕ, suc, ◌+◌, Text, bytes, text_eq, fold_case, equal_fold, to_lower, Map, lookup, insert, word_eq,
  Bool, true, false, not, ◌&&◌, ◌||◌, ◌==◌, if◌then◌else◌, Option, none, some, List, [], ◌∷◌, ◌++◌,
  map,
}
use satis.Vfs.Names.{trim_space}
use satis.Bridge.Search.{member}
use satis.Bridge.Graph.{
  PlanEdge, LoopPolicy, is_conditional_edge_kind, has_limit, values, find_unreachable,
}
use satis.Bridge.Cycle.{has_cycle}

pub data GraphIssue : Type 0 where
  unknown_from unknown_to self_loop entry_has_incoming unreachable : Text → GraphIssue
  branch_missing limit_missing : Text → Text → GraphIssue
  cycle : GraphIssue

-- `if test { issues = append(issues, issue) }`
abbrev pub reported : Bool → GraphIssue → List GraphIssue
reported true issue = issue ∷ []
reported false issue = []

-- validateLoopPolicy
abbrev pub loop_policy_issues : PlanEdge → List GraphIssue
loop_policy_issues edge =
    reported (not (has_limit edge.loop_policy)) (limit_missing edge.from_chunk_id edge.to_chunk_id)

-- The body of the loop over the edges.
unfoldable pub edge_issues : List Text → PlanEdge → List GraphIssue
unfolding member text_eq trim_space fold_case
edge_issues ids edge =
    let from = edge.from_chunk_id in
    let to = edge.to_chunk_id in
    let kind = trim_space edge.edge_kind in
    reported (not (member from ids)) (unknown_from from)
    ++ reported (not (member to ids)) (unknown_to to)
    ++ reported (text_eq from to) (self_loop from)
    ++ reported (text_eq kind (bytes "branch") && text_eq (trim_space edge.branch) [])
        (branch_missing from to)
    ++ (if equal_fold kind (bytes "loop_back") then loop_policy_issues edge else [])

unfoldable pub all_edge_issues : List Text → List PlanEdge → List GraphIssue
unfolding edge_issues
all_edge_issues ids [] = []
all_edge_issues ids (edge ∷ edges) = edge_issues ids edge ++ all_edge_issues ids edges

-- `adj[u] = append(adj[u], v)`
abbrev pub add_target : Text → Text → Map Text (List Text) → Map Text (List Text)
add_target u v adj = insert u (values (lookup u adj) ++ v ∷ []) adj

-- The edges whose kind passes a test, added to a map.
unfoldable pub add_edges :
    (Text → Bool) → List PlanEdge → Map Text (List Text) → Map Text (List Text)
unfolding insert lookup
add_edges test [] adj = adj
add_edges test (edge ∷ edges) adj =
    add_edges test edges
      (if test edge.edge_kind then add_target edge.from_chunk_id edge.to_chunk_id adj else adj)

abbrev pub is_forward : Text → Bool
is_forward kind = not (is_conditional_edge_kind kind)

unfoldable pub forward_adjacency : List PlanEdge → Map Text (List Text)
unfolding add_edges is_conditional_edge_kind
forward_adjacency edges = add_edges is_forward edges []

unfoldable pub reachability_adjacency : List PlanEdge → Map Text (List Text)
unfolding forward_adjacency add_edges is_conditional_edge_kind
reachability_adjacency edges = add_edges is_conditional_edge_kind edges (forward_adjacency edges)

abbrev pub count_of : Option ℕ → ℕ
count_of none = 0
count_of (some n) = n

-- `indegree[to]++`, for the edges that are not conditional.
unfoldable pub indegrees : List PlanEdge → Map Text ℕ → Map Text ℕ
unfolding insert lookup is_conditional_edge_kind
indegrees [] degrees = degrees
indegrees (edge ∷ edges) degrees = indegrees edges (
    if is_forward edge.edge_kind
    then insert edge.to_chunk_id (count_of (lookup edge.to_chunk_id degrees) + 1) degrees
    else degrees)

unfoldable pub zeroed : List Text → Map Text ℕ
unfolding insert
zeroed [] = []
zeroed (id ∷ ids) = insert id 0 (zeroed ids)

unfoldable pub entry_issues : Map Text ℕ → List Text → List GraphIssue
unfolding lookup
entry_issues degrees [] = []
entry_issues degrees (e ∷ entries) =
    reported (not (count_of (lookup e degrees) == 0)) (entry_has_incoming e)
    ++ entry_issues degrees entries

abbrev pub or_else_issues : List GraphIssue → List GraphIssue → List GraphIssue
or_else_issues [] next = next
or_else_issues (issue ∷ issues) next = issue ∷ issues

-- From the degrees on: the entries, the cycle and what is not reachable, each only if nothing was found before.
unfoldable pub graph_issues : List Text → List PlanEdge → List Text → List GraphIssue
unfolding forward_adjacency reachability_adjacency indegrees zeroed entry_issues has_cycle
    find_unreachable
graph_issues ids edges entries =
    let adj = forward_adjacency edges in
    let lost = map unreachable (find_unreachable ids (reachability_adjacency edges) entries) in
    or_else_issues (entry_issues (indegrees edges (zeroed ids)) entries)
      (if has_cycle ids adj then cycle ∷ [] else lost)
