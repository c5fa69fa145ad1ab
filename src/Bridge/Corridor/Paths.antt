-- ===== src/Bridge/Corridor/Paths.antt =====
-- The corridor is the set of the chunks on the paths from the target of a loop back to its source.
use satis.Base.{
  [], ◌≢◌, ℕ, suc, ◌≤◌, Text, text_eq, text_eq_iff, length, Bool, true, false, ◌&&◌, ◌||◌,
  Bool-cases, inl, inr, ◌↔◌, List, ◌∷◌, map, ◌≡◌, refl, sym, ap, subst, ◌∙◌, arith,
}
use satis.Vfs.Names.{trim_space}
use satis.Bridge.Search.{member}
use satis.Bridge.Search.Pushes.{unseen}
use satis.Bridge.Search.Reach.{IsReachable, start, visit_all-IsClosed, closed-IsReachable}
use satis.Bridge.Search.Paths.{member_self, IsReachable-trans, IsReachable-flip}
use satis.Bridge.Graph.{PlanEdge}
use satis.Bridge.Graph.Checks.{member-keep}
use satis.Bridge.Corridor.Links.{IsForwardPath, IsForwardPath-iff}
use satis.Bridge.Corridor.{
  bfs_chunk_ids, forward, backward, corridor_between, collect_loop_back_corridor_chunk_ids,
}

unseen_le : (seen universe : List Text) → unseen seen universe ≤ length universe
unfolding unseen member
unseen_le seen [] = omega arith
unseen_le seen (x ∷ xs) = ground (arith, unseen_le seen xs)

-- bfsChunkIDs sees exactly what the edges lead to from the start, where the targets of all of them
-- are no more than the edges.
pub bfs_chunk_ids_iff :
    (next : Text → List Text) (universe : List Text) (n : ℕ) (from u : Text)
    → length universe ≤ n
    → ((x y : Text) → member y (next x) ≡ true → member y universe ≡ true)
    → (member u (bfs_chunk_ids n from next) ≡ true) ↔ IsReachable next (from ∷ []) u
unfolding bfs_chunk_ids member
bfs_chunk_ids_iff next universe n from u room inside =
    let (p, q, r) =
      visit_all-IsClosed next (from ∷ []) (λ x. Unit {0}) universe inside (λ x. tt) (suc n)
        (from ∷ []) (from ∷ []) (omega (arith, unseen_le (from ∷ []) universe))
        (record { settled = λ x m. inl m; sound = λ x m. start m; marked = λ x m. m }) in
    (λ m. p.sound u m, λ h. closed-IsReachable next (from ∷ []) (λ x. Unit {0}) _ q r u h)

abbrev heads : List PlanEdge → List Text
heads edges = map (λ (e : PlanEdge). trim_space e.to_chunk_id) edges

abbrev tails : List PlanEdge → List Text
tails edges = map (λ (e : PlanEdge). trim_space e.from_chunk_id) edges

length-heads : (edges : List PlanEdge) → length (heads edges) ≤ length edges
length-heads [] = omega arith
length-heads (e ∷ edges) = omega (arith, length-heads edges)

length-tails : (edges : List PlanEdge) → length (tails edges) ≤ length edges
length-tails [] = omega arith
length-tails (e ∷ edges) = omega (arith, length-tails edges)

member-forward :
    (edges : List PlanEdge) (u v : Text)
    → member v (forward edges u) ≡ true
    → member v (heads edges) ≡ true
unfolding member forward
member-forward [] u v h = cc
member-forward (e ∷ edges) u v h = ground (arith, member-forward edges u v)

member-backward :
    (edges : List PlanEdge) (u v : Text)
    → member v (backward edges u) ≡ true
    → member v (tails edges) ≡ true
unfolding member backward
member-backward [] u v h = cc
member-backward (e ∷ edges) u v h = ground (arith, member-backward edges u v)

-- The two adjacency maps are of the same edges.
forward-backward :
    (edges : List PlanEdge) (u v : Text) → member v (forward edges u) ≡ member u (backward edges v)
unfolding member forward backward
forward-backward [] u v = refl
forward-backward (e ∷ edges) u v =
    let a = trim_space e.from_chunk_id in
    let b = trim_space e.to_chunk_id in
    ground (
      arith,
      forward-backward edges u v,
      text_eq_iff a u,
      text_eq_iff u a,
      text_eq_iff b v,
      text_eq_iff v b,
    )

module _ (edges : List PlanEdge) (target source : Text) where
  -- A path of edges of the corridor, from one chunk to another.
  abbrev pub PathTo : Text → Text → Type 0
  PathTo a b = IsReachable (forward edges) (a ∷ []) b

  seen_forward :
      (u : Text)
      → (member u (bfs_chunk_ids (length edges) target (forward edges)) ≡ true) ↔ PathTo target u
  seen_forward u =
      bfs_chunk_ids_iff (forward edges) (heads edges) (length edges) target u (length-heads edges)
        (member-forward edges)

  seen_backward :
      (u : Text)
      → (member u (bfs_chunk_ids (length edges) source (backward edges)) ≡ true) ↔ PathTo u source
  seen_backward u =
      let (there, back) =
        bfs_chunk_ids_iff (backward edges) (tails edges) (length edges) source u
          (length-tails edges) (member-backward edges) in
      (
        λ m.
            IsReachable-flip (backward edges) (forward edges)
              (λ a b h. forward-backward edges b a ∙ h) source u (there m),
        λ p. back (
            IsReachable-flip (forward edges) (backward edges)
              (λ a b h. sym (forward-backward edges a b) ∙ h) u source p),
      )

  self : (a : Text) → PathTo a a
  self a = start (member_self a [])

  abbrev seen_source : Bool
  seen_source = member source (bfs_chunk_ids (length edges) target (forward edges))

  abbrev on_path : Text → Bool
  on_path u =
      member u (bfs_chunk_ids (length edges) target (forward edges))
      && member u (bfs_chunk_ids (length edges) source (backward edges))

  listed :
      (u : Text)
      → seen_source ≡ true
      → member u (corridor_between edges target source)
        ≡ (text_eq u target || (text_eq u source || on_path u))
  unfolding corridor_between member
  listed u h =
      rw (h, corridor_between)
        (ap (λ b. text_eq u target || (text_eq u source || b))
          (member-keep (λ id. member id (bfs_chunk_ids (length edges) source (backward edges))) u
            (bfs_chunk_ids (length edges) target (forward edges))))

  unlisted :
      (u : Text) → seen_source ≡ false → member u (corridor_between edges target source) ≡ false
  unfolding corridor_between member
  unlisted u h = elim (Bool-cases (text_eq target source)) [
    | inl e ↦
        let same : target ≡ source = (text_eq_iff target source).0 e in
        absurd (cc (sym ((seen_forward source).1 (subst (PathTo target) same (self target))) ∙ h))
    | inr e ↦ rw (h, e, corridor_between)
  ]

  between :
      (u : Text)
      → (member u (corridor_between edges target source) ≡ true)
        ↔ (PathTo target u × PathTo u source)
  between u = elim (Bool-cases seen_source) [
    | inr off ↦ (
      λ m. absurd (cc (sym m ∙ unlisted u off)),
      λ p. absurd (
          cc (
            sym
              ((seen_forward source).1 (IsReachable-trans (forward edges) target u source p.0 p.1))
            ∙ off)),
    )
    | inl met ↦
        let whole : PathTo target source = (seen_forward source).0 met in
        (
          λ m. elim (Bool-cases (text_eq u target)) [
            | inl e ↦
                let same : target ≡ u = sym ((text_eq_iff u target).0 e) in
                (subst (PathTo target) same (self target), subst (λ x. PathTo x source) same whole)
            | inr e ↦ elim (Bool-cases (text_eq u source)) [
              | inl f ↦
                  let same : source ≡ u = sym ((text_eq_iff u source).0 f) in
                  (
                    subst (PathTo target) same whole,
                    subst (λ x. PathTo x source) same (self source),
                  )
              | inr f ↦ (
                (seen_forward u).0 (ground (arith, listed u met)),
                (seen_backward u).0 (ground (arith, listed u met)),
              )
            ]
          ],
          λ p. ground (arith, listed u met, (seen_forward u).1 p.0, (seen_backward u).1 p.1),
        )
  ]

-- The set of a loop back's corridor, for names of its two ends that are not blank, has exactly the chunks
-- that lie on a path from its target to its source. A path follows edges of the plan that have two ends
-- and a kind that is neither a handoff nor a loop back, whatever its case and the blanks about it.
pub collect_loop_back_corridor_iff :
    (edges : List PlanEdge) (target source u : Text)
    → trim_space target ≢ []
    → trim_space source ≢ []
    → (member u (collect_loop_back_corridor_chunk_ids edges target source) ≡ true)
      ↔ (IsForwardPath edges (trim_space target) u × IsForwardPath edges u (trim_space source))
unfolding collect_loop_back_corridor_chunk_ids text_eq
collect_loop_back_corridor_iff edges target source u t s =
    let (there, back) = between edges (trim_space target) (trim_space source) u in
    let (go, come) = IsForwardPath-iff edges (trim_space target) u in
    let (run, rise) = IsForwardPath-iff edges u (trim_space source) in
    let blank_target : text_eq (trim_space target) [] ≡ false =
      ground (arith, text_eq_iff (trim_space target) []) in
    let blank_source : text_eq (trim_space source) [] ≡ false =
      ground (arith, text_eq_iff (trim_space source) []) in
    rw (blank_target, blank_source, collect_loop_back_corridor_chunk_ids)
      (λ m. let (p, q) = there m in (go p, run q), λ h. back (come h.0, rise h.1))
