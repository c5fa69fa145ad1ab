-- ===== src/Bridge/Graph.antt =====
-- The checks of bridge/validate.go on the graph of a plan (bridge/plan.go): which chunks no entry
-- leads to, and which conditional edges close a cycle.
pub mod Checks
use satis.Base.{
  ℕ, zero, suc, ◌+◌, ◌-◌, Text, bytes, text_eq, text_ltb, sort_by, to_lower, Map, lookup, word_eq,
  length, Bool, true, false, not, ◌&&◌, ◌||◌, ◌==◌, leb, if◌then◌else◌, Option, none, some, List,
  [], ◌∷◌, ◌++◌, map, take, drop,
}
use satis.Base.Ints.{ℤ, pos, negsuc}
use satis.Vfs.Names.{trim_space}
use satis.Bridge.Search.{member, Search, push_unseen, visit_all, finds}

pub record LoopPolicy : Type 0 where
  pub max_iterations : ℤ
  pub notes : Text

pub record PlanEdge : Type 0 where
  pub from_chunk_id : Text
  pub to_chunk_id : Text
  pub edge_kind : Text
  pub branch : Text
  pub loop_policy : Option LoopPolicy

unfoldable pub is_conditional_edge_kind : Text → Bool
unfolding to_lower
is_conditional_edge_kind kind =
    let k = to_lower (trim_space kind) in
    text_eq k (bytes "branch") || text_eq k (bytes "default") || text_eq k (bytes "loop_back")

abbrev pub values : Option (List Text) → List Text
values none = []
values (some vs) = vs

-- `adj[u]`
abbrev pub targets : Map Text (List Text) → Text → List Text
targets adj u = values (lookup u adj)

unfoldable pub all_targets : Map Text (List Text) → List Text
all_targets [] = []
all_targets ((u, vs) ∷ adj) = vs ++ all_targets adj

-- The elements that pass a test, in order.
unfoldable pub keep : (Text → Bool) → List Text → List Text
keep test [] = []
keep test (x ∷ xs) = let rest = keep test xs in if test x then x ∷ rest else rest

abbrev pub empty : Search
empty = record { seen = []; queue = [] }

-- The chunks that findUnreachable has seen at the end. A chunk enters the queue once, so there are
-- at most as many rounds as entries and targets.
unfoldable pub seen_from : List Text → Map Text (List Text) → List Text → List Text
unfolding visit_all push_unseen keep all_targets
seen_from ids adj entries =
    let fuel = length (entries ++ all_targets adj) in
    (visit_all fuel (targets adj) (push_unseen (keep (λ e. member e ids) entries) empty)).seen

unfoldable pub find_unreachable : List Text → Map Text (List Text) → List Text → List Text
unfolding seen_from keep
find_unreachable ids adj entries =
    let seen = seen_from ids adj entries in sort_by text_ltb (keep (λ id. not (member id seen)) ids)

-- The edges with their positions, from `i` on.
abbrev pub targets_except : ℕ → ℕ → List PlanEdge → Text → List Text
targets_except i skip [] u = []
targets_except i skip (edge ∷ edges) u =
    let rest = targets_except (suc i) skip edges u in
    if not (i == skip) && text_eq edge.from_chunk_id u then edge.to_chunk_id ∷ rest else rest

abbrev pub edge_at : ℕ → List PlanEdge → Option PlanEdge
edge_at n [] = none
edge_at zero (edge ∷ edges) = some edge
edge_at (suc n) (edge ∷ edges) = edge_at n edges

abbrev pub to_ids : List PlanEdge → List Text
to_ids edges = map (λ (e : PlanEdge). e.to_chunk_id) edges

-- The position is one of a loop over the edges, so it is not negative.
unfoldable pub edge_creates_back_reference : List PlanEdge → ℕ → Bool
unfolding finds
edge_creates_back_reference edges skip = elim (edge_at skip edges) [
  | none ↦ false
  | some target ↦
      if text_eq target.from_chunk_id [] || text_eq target.to_chunk_id []
      then false
      else finds (suc (length edges)) (targets_except 0 skip edges) target.from_chunk_id
          (record { seen = target.to_chunk_id ∷ []; queue = target.to_chunk_id ∷ [] })
]

abbrev is_positive : ℤ → Bool
is_positive (pos n) = not (n == 0)
is_positive (negsuc n) = false

abbrev pub has_limit : Option LoopPolicy → Bool
has_limit none = false
has_limit (some policy) = is_positive policy.max_iterations

-- The edges that the check reports, from position `i` on.
unfoldable pub unlimited_from : ℕ → List PlanEdge → List PlanEdge → List PlanEdge
unfolding edge_creates_back_reference is_conditional_edge_kind
unlimited_from i all [] = []
unlimited_from i all (edge ∷ edges) =
    let rest = unlimited_from (suc i) all edges in
    if is_conditional_edge_kind edge.edge_kind
      && edge_creates_back_reference all i
      && not (has_limit edge.loop_policy)
    then edge ∷ rest
    else rest

unfoldable pub validate_back_edges_require_loop_policy : List PlanEdge → List PlanEdge
unfolding unlimited_from
validate_back_edges_require_loop_policy edges = unlimited_from 0 edges edges
