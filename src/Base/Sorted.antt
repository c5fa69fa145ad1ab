-- ===== src/Base/Sorted.antt =====
-- What the insertion sort returns is in order.
use mathlib.Core.Path.{◌≡◌, refl}
use mathlib.Core.Logic.{inl, inr}
use mathlib.Core.Bool.{Bool, true, false}
use mathlib.Core.List.{List, [], ◌∷◌, map}
use native.Mathlib.Omega.{arith}
use satis.Base.Tests.{Bool-cases}
use satis.Base.Words.{Text, text_eq}
use satis.Base.Sort.{insert_by, sort_by, text_ltb}
use satis.Base.All.{All}

module _ {A : Type 0} (lt : A → A → Bool) where
  -- No element is to stand before `x`, the one in front of the list.
  abbrev pub Follows : A → List A → Type 0
  Follows x [] = Unit
  Follows x (y ∷ ys) = lt y x ≡ false

  abbrev pub Ordered : List A → Type 0
  Ordered [] = Unit
  Ordered (x ∷ xs) = Follows x xs × Ordered xs

  module _ (asym : (x y : A) → lt x y ≡ true → lt y x ≡ false) where
    Follows-insert_by :
        (x y : A) (ys : List A) → lt x y ≡ false → Follows y ys → Follows y (insert_by lt x ys)
    unfolding insert_by
    Follows-insert_by x y [] h f = h
    Follows-insert_by x y (z ∷ zs) h f = elim (Bool-cases (lt z x)) [
      | inl e ↦ rw e f
      | inr e ↦ rw e h
    ]

    insert_by-Ordered : (x : A) (ys : List A) → Ordered ys → Ordered (insert_by lt x ys)
    unfolding insert_by
    insert_by-Ordered x [] o = (tt, tt)
    insert_by-Ordered x (y ∷ ys) o = elim (Bool-cases (lt y x)) [
      | inl e ↦ rw e (Follows-insert_by x y ys (asym y x e) o.0, insert_by-Ordered x ys o.1)
      | inr e ↦ rw e (e, o)
    ]

    pub sort_by-Ordered : (xs : List A) → Ordered (sort_by lt xs)
    unfolding sort_by
    sort_by-Ordered [] = tt
    sort_by-Ordered (x ∷ xs) = insert_by-Ordered x (sort_by lt xs) (sort_by-Ordered xs)

pub text_asym : (s t : Text) → text_ltb s t ≡ true → text_ltb t s ≡ false
unfolding text_ltb
text_asym s [] h = cc
text_asym [] (d ∷ ds) h = refl
text_asym (c ∷ cs) (d ∷ ds) h = ground (arith, text_asym cs ds)

pub text_eq_comm : (s t : Text) → text_eq s t ≡ text_eq t s
unfolding text_eq
text_eq_comm [] [] = refl
text_eq_comm [] (d ∷ ds) = refl
text_eq_comm (c ∷ cs) [] = refl
text_eq_comm (c ∷ cs) (d ∷ ds) = ground (arith, text_eq_comm cs ds)

module _ {B : Type 0} (P : B → Type 0) where
  pub All-insert_by :
      (lt : B → B → Bool) (x : B) (ys : List B) → P x → All P ys → All P (insert_by lt x ys)
  unfolding insert_by
  All-insert_by lt x [] p h = (p, tt)
  All-insert_by lt x (y ∷ ys) p h = elim (Bool-cases (lt y x)) [
    | inl e ↦ rw e (h.0, All-insert_by lt x ys p h.1)
    | inr e ↦ rw e (p, h)
  ]

  pub All-sort_by : (lt : B → B → Bool) (xs : List B) → All P xs → All P (sort_by lt xs)
  unfolding sort_by
  All-sort_by lt [] h = tt
  All-sort_by lt (x ∷ xs) h = All-insert_by lt x (sort_by lt xs) h.0 (All-sort_by lt xs h.1)

  pub All-map : {A : Type 0} (f : A → B) (xs : List A) → All (λ a. P (f a)) xs → All P (map f xs)
  All-map f [] h = tt
  All-map f (x ∷ xs) h = (h.0, All-map f xs h.1)
