-- ===== src/Bridge/Accept/Adjacency.antt =====
-- What the maps of adjacent chunks and of degrees hold.
use mathlib.Core.List.{append-nil, append_assoc}
use satis.Base.{
  ℕ, ◌+◌, ◌≤◌, Text, text_eq, text_eq_iff, Map, lookup, insert, word_eq, lookup-insert, Bool, false,
  ◌&&◌, if◌then◌else◌, Bool-cases, inl, inr, List, [], ◌∷◌, ◌++◌, ◌≡◌, sym, ap, ◌∙◌, arith,
}
use satis.Base.Sorted.{text_eq_comm}
use satis.Bridge.Search.{member}
use satis.Bridge.Graph.{PlanEdge, targets, values, is_conditional_edge_kind}
use satis.Bridge.Accept.{
  add_target, add_edges, is_forward, forward_adjacency, reachability_adjacency, count_of, indegrees,
}

-- The ends of the edges from a chunk whose kind passes a test.
unfoldable pub ends_of : (Text → Bool) → List PlanEdge → Text → List Text
ends_of test [] u = []
ends_of test (edge ∷ edges) u =
    let rest = ends_of test edges u in
    if test edge.edge_kind && text_eq edge.from_chunk_id u then edge.to_chunk_id ∷ rest else rest

targets-add_target :
    (u v x : Text) (adj : Map Text (List Text))
    → targets (add_target u v adj) x ≡ targets adj x ++ (if text_eq u x then v ∷ [] else [])
targets-add_target u v x adj = elim (Bool-cases (text_eq u x)) [
  | inl e ↦
      rw (lookup-insert u x (values (lookup u adj) ++ v ∷ []) adj)
        (rw e (ap (λ w. targets adj w ++ v ∷ []) ((text_eq_iff u x).0 e)))
  | inr e ↦
      rw (lookup-insert u x (values (lookup u adj) ++ v ∷ []) adj)
        (rw e (sym (append-nil (targets adj x))))
]

targets-add_edges :
    (test : Text → Bool) (edges : List PlanEdge) (adj : Map Text (List Text)) (x : Text)
    → targets (add_edges test edges adj) x ≡ targets adj x ++ ends_of test edges x
unfolding add_edges ends_of
targets-add_edges test [] adj x = sym (append-nil (targets adj x))
targets-add_edges test (edge ∷ edges) adj x = elim (Bool-cases (test edge.edge_kind)) [
  | inr e ↦ rw e (targets-add_edges test edges adj x)
  | inl e ↦ elim (Bool-cases (text_eq edge.from_chunk_id x)) [
    | inl f ↦
        rw (e, f)
          (targets-add_edges test edges (add_target edge.from_chunk_id edge.to_chunk_id adj) x
            ∙ rw (targets-add_target edge.from_chunk_id edge.to_chunk_id x adj, f)
                (append_assoc (targets adj x) (edge.to_chunk_id ∷ []) (ends_of test edges x)))
    | inr f ↦
        rw (e, f)
          (targets-add_edges test edges (add_target edge.from_chunk_id edge.to_chunk_id adj) x
            ∙ rw (targets-add_target edge.from_chunk_id edge.to_chunk_id x adj, f)
                (ap (λ ts. ts ++ ends_of test edges x) (append-nil (targets adj x))))
  ]
]

-- The ends of the edges that are not conditional, and of all.
abbrev pub forward_ends : List PlanEdge → Text → List Text
forward_ends edges = ends_of is_forward edges

abbrev pub all_ends : List PlanEdge → Text → List Text
all_ends edges u = forward_ends edges u ++ ends_of is_conditional_edge_kind edges u

pub targets-forward :
    (edges : List PlanEdge) (x : Text) → targets (forward_adjacency edges) x ≡ forward_ends edges x
unfolding forward_adjacency lookup
targets-forward edges x = targets-add_edges is_forward edges [] x

pub targets-reachability :
    (edges : List PlanEdge) (x : Text) → targets (reachability_adjacency edges) x ≡ all_ends edges x
unfolding reachability_adjacency
targets-reachability edges x =
    targets-add_edges is_conditional_edge_kind edges (forward_adjacency edges) x
    ∙ ap (λ ts. ts ++ ends_of is_conditional_edge_kind edges x) (targets-forward edges x)

raised :
    (t e : Text) (degrees : Map Text ℕ)
    → count_of (lookup e degrees) + (if text_eq e t then 1 else 0)
      ≤ count_of (lookup e (insert t (count_of (lookup t degrees) + 1) degrees))
raised t e degrees = elim (Bool-cases (text_eq t e)) [
  | inl same ↦
      let equal : t ≡ e = (text_eq_iff t e).0 same in
      rw (lookup-insert t e (count_of (lookup t degrees) + 1) degrees)
        (rw (same, text_eq_comm e t) (rw same (rw equal (omega arith))))
  | inr other ↦
      rw (lookup-insert t e (count_of (lookup t degrees) + 1) degrees)
        (rw (other, text_eq_comm e t) (rw other (omega arith)))
]

-- A degree never falls, and it rises at the end of an edge.
indegrees_rise :
    (edges : List PlanEdge) (degrees : Map Text ℕ) (e u : Text)
    → count_of (lookup e degrees) + (if member e (forward_ends edges u) then 1 else 0)
      ≤ count_of (lookup e (indegrees edges degrees))
unfolding indegrees ends_of member
indegrees_rise [] degrees e u = omega arith
indegrees_rise (edge ∷ edges) degrees e u = elim (Bool-cases (is_forward edge.edge_kind)) [
  | inr f ↦ rw f (indegrees_rise edges degrees e u)
  | inl f ↦
      let degrees' =
        insert edge.to_chunk_id (count_of (lookup edge.to_chunk_id degrees) + 1) degrees in
      let more = indegrees_rise edges degrees' e u in
      let first = raised edge.to_chunk_id e degrees in
      elim (Bool-cases (text_eq edge.from_chunk_id u)) [
        | inr g ↦ rw (f, g) (ground arith)
        | inl g ↦ rw (f, g) (ground arith)
      ]
]

-- A chunk without a degree is the end of no edge that is not conditional.
pub indegrees_none :
    (edges : List PlanEdge) (degrees : Map Text ℕ) (e u : Text)
    → count_of (lookup e (indegrees edges degrees)) ≡ 0
    → member e (forward_ends edges u) ≡ false
indegrees_none edges degrees e u h = let rise = indegrees_rise edges degrees e u in ground arith
