-- ===== src/Bridge/Search/Pushes.antt =====
-- What the inner loop does to the set and the queue.
use satis.Base.{
  ℕ, ◌+◌, ◌≤◌, ◌<◌, Text, text_eq, text_eq_iff, text_eq_refl, length, length-append, true, false,
  ◌||◌, if◌then◌else◌, Bool-cases, inl, inr, ◌⊎◌, List, [], ◌∷◌, ◌++◌, ◌≡◌, refl, sym, ap, arith,
}
use satis.Bridge.Search.{member, Search, push, push_unseen}

pub member-append :
    (x : Text) (xs ys : List Text) → member x (xs ++ ys) ≡ (member x xs || member x ys)
unfolding member
member-append x [] ys = refl
member-append x (y ∷ ys) zs = ground (arith, member-append x ys zs)

-- How many of the universe are not yet seen.
unfoldable pub unseen : List Text → List Text → ℕ
unfolding member
unseen seen [] = 0
unseen seen (x ∷ xs) = (if member x seen then 0 else 1) + unseen seen xs

-- A step from one state to another that only adds.
pub record IsGrown (vs : List Text) (a b : Search) : Type 0 where
  pub kept : (x : Text) → member x a.seen ≡ true → member x b.seen ≡ true
  pub queued : (x : Text) → member x a.queue ≡ true → member x b.queue ≡ true
  pub added : (x : Text) → member x vs ≡ true → member x b.seen ≡ true
  pub fresh :
      (x : Text)
      → member x b.seen ≡ true
      → (member x a.seen ≡ true) ⊎ ((member x vs ≡ true) × (member x b.queue ≡ true))
  pub waiting :
      (x : Text) → member x b.queue ≡ true → (member x a.queue ≡ true) ⊎ (member x vs ≡ true)

push-IsGrown : (v : Text) (st : Search) → IsGrown (v ∷ []) st (push v st)
unfolding member
push-IsGrown v st = elim (Bool-cases (member v st.seen)) [
  | inl e ↦ rw e (record {
    kept = λ x h. h;
    queued = λ x h. h;
    added = λ x h. ground (arith, text_eq_iff x v);
    fresh = λ x h. inl h;
    waiting = λ x h. inl h;
  })
  | inr e ↦ rw e (record {
    kept = λ x h. ground arith;
    queued = λ x h. ground (arith, member-append x st.queue (v ∷ []));
    added = λ x h. ground arith;
    fresh = λ x h. ground (arith, member-append x st.queue (v ∷ []));
    waiting = λ x h. ground (arith, member-append x st.queue (v ∷ []));
  })
]

pub push_unseen-IsGrown : (vs : List Text) (st : Search) → IsGrown vs st (push_unseen vs st)
unfolding push_unseen member
push_unseen-IsGrown [] st = record {
  kept = λ x h. h;
  queued = λ x h. h;
  added = λ x h. cc;
  fresh = λ x h. inl h;
  waiting = λ x h. inl h;
}
push_unseen-IsGrown (v ∷ vs) st =
    let p : IsGrown (v ∷ []) st (push v st) = push-IsGrown v st in
    let r : IsGrown vs (push v st) (push_unseen vs (push v st)) =
      push_unseen-IsGrown vs (push v st) in
    record {
      kept = λ x h. r.kept x (p.kept x h);
      queued = λ x h. r.queued x (p.queued x h);
      added = λ x h. elim (Bool-cases (text_eq x v)) [
        | inl e ↦ r.kept x (p.added x (rw e))
        | inr e ↦ r.added x (ground arith)
      ];
      fresh = λ x h. elim (r.fresh x h) [
        | inl m ↦ elim (p.fresh x m) [
          | inl k ↦ inl k
          | inr k ↦ inr (ground (arith, k.0), r.queued x k.1)
        ]
        | inr k ↦ inr (ground (arith, k.0), k.1)
      ];
      waiting = λ x h. elim (r.waiting x h) [
        | inl m ↦ elim (p.waiting x m) [ inl k ↦ inl k | inr k ↦ inr (ground arith) ]
        | inr k ↦ inr (ground arith)
      ];
    }

unseen-cons_le :
    (v : Text) (seen universe : List Text) → unseen (v ∷ seen) universe ≤ unseen seen universe
unfolding unseen member
unseen-cons_le v seen [] = omega arith
unseen-cons_le v seen (x ∷ xs) = ground (arith, unseen-cons_le v seen xs)

unseen-cons_lt :
    (v : Text) (seen universe : List Text)
    → member v seen ≡ false
    → member v universe ≡ true
    → unseen (v ∷ seen) universe < unseen seen universe
unfolding unseen member
unseen-cons_lt v seen [] h m = cc
unseen-cons_lt v seen (x ∷ xs) h m = elim (Bool-cases (text_eq v x)) [
  | inl e ↦
      let same : v ≡ x = (text_eq_iff v x).0 e in
      ground
        (arith, unseen-cons_le v seen xs, ap (λ y. member y seen) same, text_eq_iff x v, sym same)
  | inr e ↦ ground (arith, unseen-cons_lt v seen xs h (ground arith))
]

-- What the search still has to do at most.
abbrev pub measure : List Text → Search → ℕ
measure universe st = length st.queue + unseen st.seen universe

push-measure :
    (universe : List Text) (v : Text) (st : Search)
    → member v universe ≡ true
    → measure universe (push v st) ≤ measure universe st
push-measure universe v st m = elim (Bool-cases (member v st.seen)) [
  | inl e ↦ rw e (omega arith)
  | inr e ↦
      rw e (omega (arith, length-append st.queue (v ∷ []), unseen-cons_lt v st.seen universe e m))
]

pub push_unseen-measure :
    (universe vs : List Text) (st : Search)
    → ((x : Text) → member x vs ≡ true → member x universe ≡ true)
    → measure universe (push_unseen vs st) ≤ measure universe st
unfolding push_unseen member
push_unseen-measure universe [] st h = omega arith
push_unseen-measure universe (v ∷ vs) st h = omega (
  arith,
  push-measure universe v st (h v (ground (arith, text_eq_refl v))),
  push_unseen-measure universe vs (push v st) (λ x m. h x (ground arith)),
)
