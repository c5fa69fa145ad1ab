-- ===== src/Bridge/Samples.antt =====
-- A small plan: `a` leads to `b`, `b` to `c`, and a loop back leads from `c` to `b`; nothing leads to `d`.
use satis.Base.{
  Text, bytes, text_eq, text_eq_iff, subst, sym, Bool-cases, inl, inr, false, sort_by, Map, lookup,
  word_eq, true, Option, none, some, List, [], ◌∷◌, ◌≡◌, ◌≢◌, ◌↔◌, refl,
}
use satis.Base.Ints.{pos}
use satis.Vfs.Names.{trim_space}
use satis.Bridge.Search.{member}
use satis.Bridge.Search.Reach.{IsReachable, start, step}
use satis.Bridge.Graph.{
  PlanEdge, LoopPolicy, targets, find_unreachable, targets_except, edge_creates_back_reference,
  validate_back_edges_require_loop_policy, has_limit,
}
use satis.Bridge.Graph.Checks.{
  known, find_unreachable_iff, edge_creates_back_reference_iff, validate_back_edges_accepts,
}
use satis.Bridge.Plan.{ChunkRepeat, validate_chunk_repeat}
use satis.Bridge.Plan.Repeat.{IsRepeatable, validate_chunk_repeat_accepts}
use satis.Bridge.Search.Paths.{Leads}
use satis.Bridge.Cycle.{out_of_fuel, cycle_search, has_cycle}
use satis.Bridge.Cycle.Correct.{cycle_search_ends, has_cycle_iff}
use satis.Bridge.Accept.{all_edge_issues, graph_issues}
use satis.Bridge.Accept.Sound.{IsSoundGraph, graph_issues-IsSound}
use satis.Bridge.Corridor.{collect_loop_back_corridor_chunk_ids}
use satis.Bridge.Corridor.Links.{IsForwardPath}
use satis.Bridge.Corridor.Paths.{collect_loop_back_corridor_iff}

abbrev edge : Text → Text → Text → Option LoopPolicy → PlanEdge
edge from to kind policy = record {
  from_chunk_id = from;
  to_chunk_id = to;
  edge_kind = kind;
  branch = [];
  loop_policy = policy;
}

abbrev loop : PlanEdge
loop =
    edge (bytes "c") (bytes "b") (bytes "loop_back")
      (some (record { max_iterations = pos 3; notes = [] }))

abbrev edges : List PlanEdge
edges = edge (bytes "a") (bytes "b") [] none ∷ edge (bytes "b") (bytes "c") [] none ∷ loop ∷ []

abbrev ids : List Text
ids = bytes "a" ∷ bytes "b" ∷ bytes "c" ∷ bytes "d" ∷ []

abbrev adj : Map Text (List Text)
adj = (bytes "a", bytes "b" ∷ []) ∷ (bytes "b", bytes "c" ∷ []) ∷ (bytes "c", bytes "b" ∷ []) ∷ []

-- The run itself: only `d` is listed.
only_d : find_unreachable ids adj (bytes "a" ∷ []) ≡ bytes "d" ∷ []
unfolding find_unreachable lookup sort_by text_eq
only_d = refl

find_unreachable_iff_example :
    (member (bytes "d") (find_unreachable ids adj (bytes "a" ∷ [])) ≡ true) ↔ (
      (member (bytes "d") ids ≡ true)
      × (IsReachable (targets adj) (known ids adj (bytes "a" ∷ [])) (bytes "d") → ⊥))
find_unreachable_iff_example = find_unreachable_iff ids adj (bytes "a" ∷ []) (bytes "d")

edge_creates_back_reference_iff_example :
    (edge_creates_back_reference edges 2 ≡ true)
    ↔ IsReachable (targets_except 0 2 edges) (bytes "b" ∷ []) (bytes "c")
unfolding text_eq
edge_creates_back_reference_iff_example =
    edge_creates_back_reference_iff edges 2 loop refl refl refl

validate_back_edges_accepts_example : has_limit loop.loop_policy ≡ true
unfolding validate_back_edges_require_loop_policy member text_eq trim_space
validate_back_edges_accepts_example =
    validate_back_edges_accepts edges 2 loop refl refl refl refl refl
      (step (start {u = bytes "b"} refl) refl)

collect_loop_back_corridor_iff_example :
    (member (bytes "c") (collect_loop_back_corridor_chunk_ids edges (bytes "b") (bytes " c"))
      ≡ true)
    ↔ (IsForwardPath edges (trim_space (bytes "b")) (bytes "c")
        × IsForwardPath edges (bytes "c") (trim_space (bytes " c")))
unfolding trim_space text_eq
collect_loop_back_corridor_iff_example =
    collect_loop_back_corridor_iff edges (bytes "b") (bytes " c") (bytes "c") (λ e. cc) (λ e. cc)

abbrev repeated : ChunkRepeat
repeated = record {
  mode = bytes "batch";
  input_paths = bytes "/a" ∷ [];
  output_tmpl = bytes "/out";
  prompt = bytes "go";
}

validate_chunk_repeat_accepts_example : IsRepeatable (λ s. true) repeated []
unfolding validate_chunk_repeat text_eq
validate_chunk_repeat_accepts_example = validate_chunk_repeat_accepts (λ s. true) repeated [] refl

cycle_search_ends_example : cycle_search ids adj ≢ out_of_fuel
cycle_search_ends_example = cycle_search_ends ids adj

abbrev straight : Map Text (List Text)
straight = (bytes "a", bytes "b" ∷ []) ∷ []

no_targets : (u : Text) → text_eq (bytes "a") u ≡ false → targets straight u ≡ []
unfolding lookup
no_targets u e = rw e refl

straight_sources :
    (u v : Text) → member v (targets straight u) ≡ true → member u (bytes "a" ∷ []) ≡ true
unfolding member
straight_sources u v m = elim (Bool-cases (text_eq (bytes "a") u)) [
  | inl e ↦ rw ((text_eq_iff u (bytes "a")).1 (sym ((text_eq_iff (bytes "a") u).0 e))) refl
  | inr e ↦ let nothing : false ≡ true = subst (λ vs. member v vs ≡ true) (no_targets u e) m in cc
]

has_cycle_iff_example :
    (has_cycle (bytes "a" ∷ []) straight ≡ true) ↔ ((w : Text) × Leads (targets straight) w w)
has_cycle_iff_example = has_cycle_iff (bytes "a" ∷ []) straight straight_sources

abbrev joined : List Text
joined = bytes "a" ∷ bytes "b" ∷ bytes "c" ∷ []

graph_issues-IsSound_example : IsSoundGraph joined edges (bytes "a" ∷ [])
unfolding all_edge_issues graph_issues sort_by
graph_issues-IsSound_example = graph_issues-IsSound joined edges (bytes "a" ∷ []) refl refl
