-- ===== src/Bridge/Accept/Sound.antt =====
-- The graph of a plan that the checks accept.
use satis.Base.{
  ℕ, Text, text_eq, text_eq_iff, Map, lookup, word_eq, Bool, true, false, not, ◌==◌, if◌then◌else◌,
  Bool-cases, inl, inr, List, [], ◌∷◌, ◌++◌, map, ◌≡◌, refl, sym, subst, arith,
}
use satis.Bridge.Search.{member}
use satis.Bridge.Search.Reach.{IsReachable, start, step}
use satis.Bridge.Search.Paths.{Leads}
use satis.Bridge.Graph.{PlanEdge, targets, keep, find_unreachable, is_conditional_edge_kind}
use satis.Bridge.Graph.Checks.{find_unreachable_none}
use satis.Bridge.Cycle.{has_cycle}
use satis.Bridge.Cycle.Correct.{has_cycle_iff}
use satis.Bridge.Accept.{
  GraphIssue, cycle, unreachable, reported, edge_issues, all_edge_issues, forward_adjacency,
  reachability_adjacency, count_of, indegrees, zeroed, entry_issues, entry_has_incoming,
  or_else_issues, graph_issues,
}
use satis.Bridge.Accept.Adjacency.{
  ends_of, forward_ends, all_ends, targets-forward, targets-reachability, indegrees_none,
}

-- What is to hold of the graph of a plan: its forward edges close no cycle, a path leads to each chunk from an
-- entry, and no forward edge leads to an entry.
pub record IsSoundGraph (ids : List Text) (edges : List PlanEdge) (entries : List Text)
    : Type 0 where
  pub acyclic : (w : Text) → ¬ Leads (forward_ends edges) w w
  pub reachable :
      (id : Text)
      → member id ids ≡ true
      → IsReachable (all_ends edges) (keep (λ e. member e ids) entries) id
  pub first : (e u : Text) → member e entries ≡ true → member e (forward_ends edges u) ≡ false

module _ (next next' : Text → List Text) (same : (u : Text) → next u ≡ next' u) where
  IsReachable-same :
      (starts : List Text) (u : Text) → IsReachable next starts u → IsReachable next' starts u
  IsReachable-same starts u (start m) = start m
  IsReachable-same starts u (step {u = w} p m) =
      step (IsReachable-same starts w p) (subst (λ vs. member u vs ≡ true) (same w) m)

  Leads-same : (a b : Text) → Leads next a b → Leads next' a b
  Leads-same a b (v, m, p) =
      (v, subst (λ vs. member v vs ≡ true) (same a) m, IsReachable-same (v ∷ []) b p)

nothing_left {ℓ} : {A : Type ℓ} (xs ys : List A) → xs ++ ys ≡ [] → (xs ≡ []) × (ys ≡ [])
nothing_left [] ys e = (refl, e)
nothing_left (x ∷ xs) ys e = cc

not_reported : (b : Bool) (issue : GraphIssue) → reported b issue ≡ [] → b ≡ false
not_reported true issue e = cc
not_reported false issue e = refl

first_of_five : (a b c d e : List GraphIssue) → a ++ b ++ c ++ d ++ e ≡ [] → a ≡ []
first_of_five [] b c d e h = refl
first_of_five (x ∷ xs) b c d e h = cc

edge_source :
    (ids : List Text) (edge : PlanEdge)
    → edge_issues ids edge ≡ []
    → member edge.from_chunk_id ids ≡ true
unfolding edge_issues
edge_source ids edge e =
    let here = not_reported (not (member edge.from_chunk_id ids)) _ (first_of_five _ _ _ _ _ e) in
    ground arith

-- Edges without issues start at a chunk of the plan.
known_source :
    (ids : List Text) (edges : List PlanEdge)
    → all_edge_issues ids edges ≡ []
    → (test : Text → Bool) (u v : Text) → member v (ends_of test edges u) ≡ true
    → member u ids ≡ true
unfolding all_edge_issues ends_of member
known_source ids [] e test u v m = cc
known_source ids (edge ∷ edges) e test u v m =
    let parts = nothing_left (edge_issues ids edge) (all_edge_issues ids edges) e in
    let known = edge_source ids edge parts.0 in
    elim (Bool-cases (text_eq edge.from_chunk_id u)) [
      | inl s ↦ subst (λ w. member w ids ≡ true) ((text_eq_iff edge.from_chunk_id u).0 s) known
      | inr n ↦ known_source ids edges parts.1 test u v (ground arith)
    ]

-- Entries without issues have no degree.
entry_free :
    (degrees : Map Text ℕ) (entries : List Text)
    → entry_issues degrees entries ≡ []
    → (e : Text) → member e entries ≡ true
    → count_of (lookup e degrees) ≡ 0
unfolding entry_issues member
entry_free degrees [] h e m = cc
entry_free degrees (x ∷ entries) h e m =
    let parts =
      nothing_left (reported (not (count_of (lookup x degrees) == 0)) (entry_has_incoming x))
        (entry_issues degrees entries) h in
    let zero_here =
      not_reported (not (count_of (lookup x degrees) == 0)) (entry_has_incoming x) parts.0 in
    elim (Bool-cases (text_eq e x)) [
      | inl s ↦
          subst (λ w. count_of (lookup w degrees) ≡ 0) (sym ((text_eq_iff e x).0 s)) (ground arith)
      | inr n ↦ entry_free degrees entries parts.1 e (ground arith)
    ]

-- What each of the three stages says, where none has an issue.
stages :
    (entry lost : List GraphIssue) (cyclic : Bool)
    → or_else_issues entry (if cyclic then cycle ∷ [] else lost) ≡ []
    → (entry ≡ []) × (cyclic ≡ false) × (lost ≡ [])
stages [] lost true e = cc
stages [] lost false e = (refl, refl, e)
stages (issue ∷ issues) lost cyclic e = cc

map-nothing : (xs : List Text) → map unreachable xs ≡ [] → xs ≡ []
map-nothing [] e = refl
map-nothing (x ∷ xs) e = cc

-- Where neither the checks on the edges nor those on the graph report an issue, the edges that are not
-- conditional close no cycle and none of them leads to an entry, and a path of edges leads to each chunk from an
-- entry that is a chunk.
pub graph_issues-IsSound :
    (ids : List Text) (edges : List PlanEdge) (entries : List Text)
    → all_edge_issues ids edges ≡ []
    → graph_issues ids edges entries ≡ []
    → IsSoundGraph ids edges entries
unfolding graph_issues
graph_issues-IsSound ids edges entries e g =
    let parts =
      stages (entry_issues (indegrees edges (zeroed ids)) entries)
        (map unreachable (find_unreachable ids (reachability_adjacency edges) entries))
        (has_cycle ids (forward_adjacency edges)) g in
    record {
      acyclic = λ w l.
          let found : has_cycle ids (forward_adjacency edges) ≡ true =
            (has_cycle_iff ids (forward_adjacency edges) (λ u v m.
                known_source ids edges e (λ k. not (is_conditional_edge_kind k)) u v
                  (subst (λ vs. member v vs ≡ true) (targets-forward edges u) m))).1
              (
                w,
                Leads-same (forward_ends edges) (targets (forward_adjacency edges))
                    (λ u. sym (targets-forward edges u)) w w l,
              ) in
          absurd (cc (found, parts.1));
      reachable = λ id m.
          IsReachable-same (targets (reachability_adjacency edges)) (all_ends edges)
            (targets-reachability edges) (keep (λ x. member x ids) entries) id
            (find_unreachable_none ids (reachability_adjacency edges) entries id
              (map-nothing _ parts.2) m);
      first = λ x u m.
          indegrees_none edges (zeroed ids) x u
            (entry_free (indegrees edges (zeroed ids)) entries parts.0 x m);
    }
