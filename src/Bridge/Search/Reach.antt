-- ===== src/Bridge/Search/Reach.antt =====
-- What the searches find: the chunks that edges lead to.
use satis.Base.{
  ℕ, zero, suc, ◌≤◌, Text, text_eq, text_eq_iff, text_eq_refl, true, false, Bool-cases, inl, inr,
  ◌⊎◌, ◌↔◌, List, [], ◌∷◌, ◌≡◌, sym, ap, subst, ◌∙◌, arith,
}
use satis.Bridge.Search.{member, Search, push_unseen, visit_all, finds}
use satis.Bridge.Search.Pushes.{IsGrown, push_unseen-IsGrown, measure, push_unseen-measure}

-- A chunk that a path of edges leads to from one of the starts.
pub data IsReachable (next : Text → List Text) (starts : List Text) : Text → Type 0 where
  start : {u : Text} → member u starts ≡ true → IsReachable next starts u
  step :
      {u v : Text}
      → IsReachable next starts u
      → member v (next u) ≡ true
      → IsReachable next starts v

module _ (next : Text → List Text) (starts : List Text) (Keep : Text → Type 0) where
  -- A search under way: what is seen is reachable, and is in the queue or has its successors seen.
  pub record IsUnderway (st : Search) : Type 0 where
    pub settled :
        (u : Text)
        → member u st.seen ≡ true
        → (member u st.queue ≡ true)
          ⊎ (Keep u × ((v : Text) → member v (next u) ≡ true → member v st.seen ≡ true))
    pub sound : (u : Text) → member u st.seen ≡ true → IsReachable next starts u
    pub marked : (u : Text) → member u st.queue ≡ true → member u st.seen ≡ true

  -- The next state of the search, once `u` is taken from the queue.
  pub visited :
      (u : Text) (rest seen : List Text)
      → Keep u
      → IsUnderway (record { seen = seen; queue = u ∷ rest })
      → IsUnderway (push_unseen (next u) (record { seen = seen; queue = rest }))
  unfolding member
  visited u rest seen keep h =
      let g : IsGrown (next u) (record { seen = seen; queue = rest })
          (push_unseen (next u) (record { seen = seen; queue = rest })) =
        push_unseen-IsGrown (next u) (record { seen = seen; queue = rest }) in
      record {
        settled = λ x m. elim (g.fresh x m) [
          | inl old ↦ elim (h.settled x old) [
            | inl waits ↦ elim (Bool-cases (text_eq x u)) [
              | inl e ↦ inr (
                subst Keep (sym ((text_eq_iff x u).0 e)) keep,
                λ v n. g.added v (ap (λ y. member v (next y)) (sym ((text_eq_iff x u).0 e)) ∙ n),
              )
              | inr e ↦ inl (g.queued x (ground arith))
            ]
            | inr done ↦ inr (done.0, λ v n. g.kept v (done.1 v n))
          ]
          | inr new ↦ inl new.1
        ];
        sound = λ x m. elim (g.fresh x m) [
          | inl old ↦ h.sound x old
          | inr new ↦ step (h.sound u (h.marked u (ground (arith, text_eq_refl u)))) new.0
        ];
        marked = λ x m. elim (g.waiting x m) [
          | inl old ↦ g.kept x (h.marked x (ground arith))
          | inr new ↦ g.added x new
        ];
      }

  -- A set that no edge leaves, all of whose members are kept.
  pub record IsClosed (set : List Text) : Type 0 where
    pub keeps : (u : Text) → member u set ≡ true → Keep u
    pub closed : (u v : Text) → member u set ≡ true → member v (next u) ≡ true → member v set ≡ true

  pub IsUnderway-IsClosed :
      (seen : List Text) → IsUnderway (record { seen = seen; queue = [] }) → IsClosed seen
  unfolding member
  IsUnderway-IsClosed seen h = record {
    keeps = λ u m. elim (h.settled u m) [ inl w ↦ absurd (cc) | inr d ↦ d.0 ];
    closed = λ u v m n. elim (h.settled u m) [ inl w ↦ absurd (cc) | inr d ↦ d.1 v n ];
  }

  pub closed-IsReachable :
      (set : List Text)
      → IsClosed set
      → ((u : Text) → member u starts ≡ true → member u set ≡ true)
      → (u : Text) → IsReachable next starts u
      → member u set ≡ true
  closed-IsReachable set c h u (start m) = h u m
  closed-IsReachable set c h u (step {u = w} r m) = c.closed w u (closed-IsReachable set c h w r) m

  module _ (universe : List Text)
      (inside : (u v : Text) → member v (next u) ≡ true → member v universe ≡ true) where
    less :
        (fuel : ℕ) (u : Text) (rest seen : List Text)
        → measure universe (record { seen = seen; queue = u ∷ rest }) ≤ suc fuel
        → measure universe (push_unseen (next u) (record { seen = seen; queue = rest })) ≤ fuel
    less fuel u rest seen h = omega (
      arith,
      push_unseen-measure universe (next u) (record { seen = seen; queue = rest }) (inside u),
    )

    no_queue :
        (seen queue : List Text)
        → measure universe (record { seen = seen; queue = queue }) ≤ 0
        → IsUnderway (record { seen = seen; queue = queue })
        → IsUnderway (record { seen = seen; queue = [] })
    no_queue seen [] h i = i
    no_queue seen (u ∷ rest) h i = absurd (omega arith)

    -- The search of findUnreachable ends in a closed set.
    pub visit_all-IsClosed :
        (all : (u : Text) → Keep u) (fuel : ℕ) (seen queue : List Text)
        → measure universe (record { seen = seen; queue = queue }) ≤ fuel
        → IsUnderway (record { seen = seen; queue = queue })
        → IsUnderway (visit_all fuel next (record { seen = seen; queue = queue }))
          × IsClosed (visit_all fuel next (record { seen = seen; queue = queue })).seen
          × ((u : Text)
              → member u seen ≡ true
              → member u (visit_all fuel next (record { seen = seen; queue = queue })).seen ≡ true)
    unfolding visit_all
    visit_all-IsClosed all zero seen queue h i =
        (i, IsUnderway-IsClosed seen (no_queue seen queue h i), λ u m. m)
    visit_all-IsClosed all (suc fuel) seen [] h i = (i, IsUnderway-IsClosed seen i, λ u m. m)
    visit_all-IsClosed all (suc fuel) seen (u ∷ rest) h i =
        let after : Search = push_unseen (next u) (record { seen = seen; queue = rest }) in
        let (p, q, r) =
          visit_all-IsClosed all fuel after.seen after.queue (less fuel u rest seen h)
            (visited u rest seen (all u) i) in
        (
          p,
          q,
          λ x m.
              r x ((push_unseen-IsGrown (next u) (record { seen = seen; queue = rest })).kept x m),
        )

module _ (next : Text → List Text) (starts : List Text) (goal : Text) where
  abbrev pub Other : Text → Type 0
  Other u = text_eq u goal ≡ false

  pub finds_sound :
      (fuel : ℕ) (seen queue : List Text)
      → IsUnderway next starts Other (record { seen = seen; queue = queue })
      → finds fuel next goal (record { seen = seen; queue = queue }) ≡ true
      → IsReachable next starts goal
  unfolding finds member
  finds_sound zero seen queue i h = cc
  finds_sound (suc fuel) seen [] i h = cc
  finds_sound (suc fuel) seen (u ∷ rest) i h = elim (Bool-cases (text_eq u goal)) [
    | inl e ↦
        subst (IsReachable next starts) ((text_eq_iff u goal).0 e)
          (i.sound u (i.marked u (ground (arith, text_eq_refl u))))
    | inr e ↦
        let after : Search = push_unseen (next u) (record { seen = seen; queue = rest }) in
        finds_sound fuel after.seen after.queue (visited next starts Other u rest seen e i)
          (ground arith)
  ]

  module _ (universe : List Text)
      (inside : (u v : Text) → member v (next u) ≡ true → member v universe ≡ true) where
    pub finds_complete :
        (fuel : ℕ) (seen queue : List Text)
        → measure universe (record { seen = seen; queue = queue }) ≤ fuel
        → IsUnderway next starts Other (record { seen = seen; queue = queue })
        → finds fuel next goal (record { seen = seen; queue = queue }) ≡ false
        → (set : List Text) × IsClosed next starts Other set
          × ((u : Text) → member u seen ≡ true → member u set ≡ true)
    unfolding finds
    finds_complete zero seen queue h i e = (
      seen,
      IsUnderway-IsClosed next starts Other seen
          (no_queue next starts Other universe inside seen queue h i),
      λ u m. m,
    )
    finds_complete (suc fuel) seen [] h i e =
        (seen, IsUnderway-IsClosed next starts Other seen i, λ u m. m)
    finds_complete (suc fuel) seen (u ∷ rest) h i e =
        let after : Search = push_unseen (next u) (record { seen = seen; queue = rest }) in
        let (p, q, r) =
          finds_complete fuel after.seen after.queue
            (less next starts Other universe inside fuel u rest seen h)
            (visited next starts Other u rest seen (ground arith) i) (ground arith) in
        (
          p,
          q,
          λ x m.
              r x ((push_unseen-IsGrown (next u) (record { seen = seen; queue = rest })).kept x m),
        )

    -- With enough fuel the search finds the goal exactly if edges lead to it.
    pub finds_iff :
        (fuel : ℕ) (seen queue : List Text)
        → measure universe (record { seen = seen; queue = queue }) ≤ fuel
        → IsUnderway next starts Other (record { seen = seen; queue = queue })
        → ((u : Text) → member u starts ≡ true → member u seen ≡ true)
        → (finds fuel next goal (record { seen = seen; queue = queue }) ≡ true)
          ↔ IsReachable next starts goal
    finds_iff fuel seen queue h i all = (
      finds_sound fuel seen queue i,
      λ r. elim (Bool-cases (finds fuel next goal (record { seen = seen; queue = queue }))) [
        | inl e ↦ e
        | inr e ↦
            let (set, c, kept) = finds_complete fuel seen queue h i e in
            let there : member goal set ≡ true =
              closed-IsReachable next starts Other set c (λ u m. kept u (all u m)) goal r in
            absurd (cc (sym (text_eq_refl goal) ∙ c.keeps goal there))
      ],
    )
