-- ===== src/Bridge/Corridor.antt =====
-- The chunks of the corridor of a loop back: collectLoopBackCorridorChunkIDs and bfsChunkIDs
-- (bridge/execute.go).
pub mod Links
pub mod Paths
use satis.Base.{
  to_lower, ℕ, zero, suc, ◌+◌, Text, bytes, text_eq, length, Bool, true, false, not, ◌&&◌, ◌||◌,
  if◌then◌else◌, List, [], ◌∷◌,
}
use satis.Vfs.Names.{trim_space}
use satis.Bridge.Search.{member, Search, visit_all}
use satis.Bridge.Graph.{PlanEdge, keep}

-- The set of what is seen from the start. A chunk enters the queue once, so there are at most as
-- many rounds as the start and the edges.
unfoldable pub bfs_chunk_ids : ℕ → Text → (Text → List Text) → List Text
unfolding visit_all
bfs_chunk_ids edge_count start next =
    (visit_all (suc edge_count) next (record { seen = start ∷ []; queue = start ∷ [] })).seen

-- strings.EqualFold with a word without the letters i and s: what folds to one of its letters has it
-- as lower case.
abbrev folds_to : Text → Text → Bool
folds_to s word = text_eq (to_lower s) word

unfoldable pub is_corridor_edge : PlanEdge → Bool
unfolding to_lower text_eq
is_corridor_edge edge =
    let kind = trim_space edge.edge_kind in
    not (folds_to kind (bytes "handoff") || folds_to kind (bytes "loop_back"))
    && not (text_eq (trim_space edge.from_chunk_id) [] || text_eq (trim_space edge.to_chunk_id) [])

-- `forward[u]`: the targets of the edges from `u`, in order.
unfoldable pub forward : List PlanEdge → Text → List Text
unfolding is_corridor_edge
forward [] u = []
forward (edge ∷ edges) u =
    let rest = forward edges u in
    if is_corridor_edge edge && text_eq (trim_space edge.from_chunk_id) u
    then trim_space edge.to_chunk_id ∷ rest
    else rest

-- `reverse[u]`: the sources of the edges to `u`, in order.
unfoldable pub backward : List PlanEdge → Text → List Text
unfolding is_corridor_edge
backward [] u = []
backward (edge ∷ edges) u =
    let rest = backward edges u in
    if is_corridor_edge edge && text_eq (trim_space edge.to_chunk_id) u
    then trim_space edge.from_chunk_id ∷ rest
    else rest

-- Once the names of the two chunks are trimmed.
unfoldable pub corridor_between : List PlanEdge → Text → Text → List Text
unfolding bfs_chunk_ids forward backward keep member
corridor_between edges target source =
    let reachable_from_target = bfs_chunk_ids (length edges) target (forward edges) in
    let can_reach_source = bfs_chunk_ids (length edges) source (backward edges) in
    if not (member source reachable_from_target) && not (text_eq target source)
    then []
    else target ∷ source ∷ keep (λ id. member id can_reach_source) reachable_from_target

unfoldable pub collect_loop_back_corridor_chunk_ids : List PlanEdge → Text → Text → List Text
unfolding corridor_between
collect_loop_back_corridor_chunk_ids edges target_chunk_id source_chunk_id =
    let target = trim_space target_chunk_id in
    let source = trim_space source_chunk_id in
    if text_eq target [] || text_eq source [] then [] else corridor_between edges target source
