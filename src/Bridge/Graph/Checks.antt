-- ===== src/Bridge/Graph/Checks.antt =====
-- What the checks on the graph find.
use satis.Base.{
  ℕ, zero, suc, ◌+◌, ◌≤◌, Text, text_eq, text_eq_iff, text_ltb, sort_by, insert_by, Map, lookup,
  word_eq, length, Bool, true, false, not, ◌&&◌, ◌||◌, Bool-cases, inl, inr, ◌↔◌, some, List, [],
  ◌∷◌, ◌++◌, ◌≡◌, refl, sym, ap, ◌∙◌, arith,
}
use satis.Bridge.Search.{member, Search, push_unseen}
use satis.Bridge.Search.Pushes.{
  IsGrown, push_unseen-IsGrown, push_unseen-measure, unseen, member-append,
}
use satis.Bridge.Search.Reach.{
  IsReachable, start, visit_all-IsClosed, closed-IsReachable, finds_iff,
}
use satis.Bridge.Graph.{
  PlanEdge, targets, all_targets, keep, empty, seen_from, find_unreachable, targets_except, edge_at,
  to_ids, edge_creates_back_reference, unlimited_from, validate_back_edges_require_loop_policy,
  has_limit, is_conditional_edge_kind,
}

pub member-targets :
    (adj : Map Text (List Text)) (u v : Text)
    → member v (targets adj u) ≡ true
    → member v (all_targets adj) ≡ true
unfolding member all_targets lookup
member-targets [] u v h = cc
member-targets ((k, vs) ∷ adj) u v h =
    ground (arith, member-append v vs (all_targets adj), member-targets adj u v)

pub member-keep :
    (test : Text → Bool) (x : Text) (xs : List Text)
    → member x (keep test xs) ≡ (member x xs && test x)
unfolding member keep
member-keep test x [] = refl
member-keep test x (y ∷ ys) = elim (Bool-cases (text_eq x y)) [
  | inl e ↦ ground (arith, member-keep test x ys, ap test ((text_eq_iff x y).0 e), e)
  | inr e ↦ ground (arith, member-keep test x ys, e)
]

member-insert_by :
    (lt : Text → Text → Bool) (x y : Text) (ys : List Text)
    → member x (insert_by lt y ys) ≡ (text_eq x y || member x ys)
unfolding member insert_by
member-insert_by lt x y [] = refl
member-insert_by lt x y (z ∷ zs) = ground (arith, member-insert_by lt x y zs)

member-sort_by :
    (lt : Text → Text → Bool) (x : Text) (xs : List Text) → member x (sort_by lt xs) ≡ member x xs
unfolding member sort_by
member-sort_by lt x [] = refl
member-sort_by lt x (y ∷ ys) =
    member-insert_by lt x y (sort_by lt ys) ∙ ap (λ b. text_eq x y || b) (member-sort_by lt x ys)

unseen-none : (universe : List Text) → unseen [] universe ≡ length universe
unfolding unseen member
unseen-none [] = refl
unseen-none (x ∷ xs) = omega (arith, unseen-none xs)

module _ (ids : List Text) (adj : Map Text (List Text)) (entries : List Text) where
  abbrev pub known : List Text
  known = keep (λ e. member e ids) entries

  seeded : IsGrown known empty (push_unseen known empty)
  seeded = push_unseen-IsGrown known empty

  known_entries : (x : Text) → member x known ≡ true → member x (entries ++ all_targets adj) ≡ true
  known_entries x h =
      ground (
        arith,
        member-append x entries (all_targets adj),
        member-keep (λ e. member e ids) x entries,
      )

  reached :
      (u : Text) → (member u (seen_from ids adj entries) ≡ true) ↔ IsReachable (targets adj) known u
  unfolding seen_from member
  reached u =
      let universe : List Text = entries ++ all_targets adj in
      let first : Search = push_unseen known empty in
      let (p, q, r) =
        visit_all-IsClosed (targets adj) known (λ x. Unit {0}) universe
          (λ x y h.
            ground (arith, member-append y entries (all_targets adj), member-targets adj x y h))
          (λ x. tt) (length universe) first.seen first.queue
          (omega
            (arith, push_unseen-measure universe known empty known_entries, unseen-none universe))
          (record {
            settled = λ x m. elim (seeded.fresh x m) [ inl w ↦ absurd (cc) | inr w ↦ inl w.1 ];
            sound = λ x m. elim (seeded.fresh x m) [ inl w ↦ absurd (cc) | inr w ↦ start w.0 ];
            marked =
                λ x m. elim (seeded.waiting x m) [ inl w ↦ absurd (cc) | inr w ↦ seeded.added x w ];
          }) in
      (
        λ m. p.sound u m,
        λ h.
            closed-IsReachable (targets adj) known (λ x. Unit {0}) _ q
              (λ x m. r x (seeded.added x m)) u h,
      )

  member-find_unreachable :
      (id : Text)
      → member id (find_unreachable ids adj entries)
        ≡ (member id ids && not (member id (seen_from ids adj entries)))
  unfolding find_unreachable
  member-find_unreachable id =
      let seen : List Text = seen_from ids adj entries in
      member-sort_by text_ltb id (keep (λ x. not (member x seen)) ids)
      ∙ member-keep (λ x. not (member x seen)) id ids

  -- Where nothing is listed, a path leads to each chunk.
  pub find_unreachable_none :
      (id : Text)
      → find_unreachable ids adj entries ≡ []
      → member id ids ≡ true
      → IsReachable (targets adj) known id
  unfolding member
  find_unreachable_none id none m =
      let listed : false ≡ (member id ids && not (member id (seen_from ids adj entries))) =
        sym (ap (member id) none) ∙ member-find_unreachable id in
      (reached id).0 (ground arith)

  -- findUnreachable lists exactly the chunks of the plan that no path of edges leads to from an
  -- entry that is a chunk of the plan.
  pub find_unreachable_iff :
      (id : Text)
      → (member id (find_unreachable ids adj entries) ≡ true)
        ↔ ((member id ids ≡ true) × (IsReachable (targets adj) known id → ⊥))
  unfolding find_unreachable
  find_unreachable_iff id =
      let seen : List Text = seen_from ids adj entries in
      let listed : member id (find_unreachable ids adj entries)
          ≡ (member id ids && not (member id seen)) =
        member-sort_by text_ltb id (keep (λ x. not (member x seen)) ids)
        ∙ member-keep (λ x. not (member x seen)) id ids in
      (
        λ h. (ground (arith, listed), λ r. ground (arith, (reached id).1 r, listed)),
        λ h. elim (Bool-cases (member id seen)) [
          | inl e ↦ absurd (h.1 ((reached id).0 e))
          | inr e ↦ ground (arith, listed)
        ],
      )

member-targets_except :
    (i skip : ℕ) (edges : List PlanEdge) (u v : Text)
    → member v (targets_except i skip edges u) ≡ true
    → member v (to_ids edges) ≡ true
unfolding member
member-targets_except i skip [] u v h = cc
member-targets_except i skip (edge ∷ edges) u v h =
    ground (arith, member-targets_except (suc i) skip edges u v)

unseen_le : (seen : List Text) (edges : List PlanEdge) → unseen seen (to_ids edges) ≤ length edges
unfolding unseen member
unseen_le seen [] = omega arith
unseen_le seen (edge ∷ edges) = ground (arith, unseen_le seen edges)

-- An edge whose two ends are not empty closes a cycle exactly if the other edges lead from its target to
-- its source.
pub edge_creates_back_reference_iff :
    (edges : List PlanEdge) (skip : ℕ) (edge : PlanEdge)
    → edge_at skip edges ≡ some edge
    → text_eq edge.from_chunk_id [] ≡ false
    → text_eq edge.to_chunk_id [] ≡ false
    → (edge_creates_back_reference edges skip ≡ true)
      ↔ IsReachable (targets_except 0 skip edges) (edge.to_chunk_id ∷ []) edge.from_chunk_id
unfolding edge_creates_back_reference member
edge_creates_back_reference_iff edges skip edge here from to =
    rw (here, from, to, edge_creates_back_reference)
      (finds_iff (targets_except 0 skip edges) (edge.to_chunk_id ∷ []) edge.from_chunk_id
        (to_ids edges) (member-targets_except 0 skip edges) (suc (length edges))
        (edge.to_chunk_id ∷ []) (edge.to_chunk_id ∷ [])
        (omega (arith, unseen_le (edge.to_chunk_id ∷ []) edges))
        (record { settled = λ u m. inl m; sound = λ u m. start m; marked = λ u m. m }) (λ u m. m))

unlimited_from-accepts :
    (i n : ℕ) (all edges : List PlanEdge) (edge : PlanEdge)
    → unlimited_from i all edges ≡ []
    → edge_at n edges ≡ some edge
    → is_conditional_edge_kind edge.edge_kind ≡ true
    → edge_creates_back_reference all (n + i) ≡ true
    → has_limit edge.loop_policy ≡ true
unfolding unlimited_from
unlimited_from-accepts i n all [] edge h here cond back = cc
unlimited_from-accepts i zero all (e ∷ edges) edge h here cond back = ground arith
unlimited_from-accepts i (suc n) all (e ∷ edges) edge h here cond back =
    unlimited_from-accepts (suc i) n all edges edge (ground arith) here cond (
      let same : n + suc i ≡ suc n + i = omega arith in
      ap (edge_creates_back_reference all) same ∙ back)

-- Where the check reports nothing, every conditional edge between named chunks whose target the
-- other edges lead from back to its source has a positive limit on its iterations.
pub validate_back_edges_accepts :
    (edges : List PlanEdge) (n : ℕ) (edge : PlanEdge)
    → validate_back_edges_require_loop_policy edges ≡ []
    → edge_at n edges ≡ some edge
    → is_conditional_edge_kind edge.edge_kind ≡ true
    → text_eq edge.from_chunk_id [] ≡ false
    → text_eq edge.to_chunk_id [] ≡ false
    → IsReachable (targets_except 0 n edges) (edge.to_chunk_id ∷ []) edge.from_chunk_id
    → has_limit edge.loop_policy ≡ true
unfolding validate_back_edges_require_loop_policy
validate_back_edges_accepts edges n edge h here cond from to path =
    let same : n + 0 ≡ n = omega arith in
    unlimited_from-accepts 0 n edges edges edge h here cond (
      ap (edge_creates_back_reference edges) same
      ∙ (edge_creates_back_reference_iff edges n edge here from to).1 path)
