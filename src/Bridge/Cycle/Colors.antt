-- ===== src/Bridge/Cycle/Colors.antt =====
-- The colours during the search.
use satis.Base.{
  ℕ, ◌+◌, ◌≤◌, ◌<◌, Text, text_eq, text_eq_iff, lookup, insert, word_eq, lookup-insert, true, false,
  ◌==◌, if◌then◌else◌, Bool-cases, inl, inr, List, [], ◌∷◌, ◌≡◌, ap, arith,
}
use satis.Bridge.Search.{member}
use satis.Bridge.Cycle.{Colors, color_of}
use satis.Bridge.Cycle.Order.{IsOrder}

pub color_of-insert :
    (u x : Text) (n : ℕ) (c : Colors)
    → color_of (insert u n c) x ≡ (if text_eq u x then n else color_of c x)
color_of-insert u x n c = ground (arith, lookup-insert u x n c)

-- How many of the universe are not coloured.
unfoldable pub whites : List Text → Colors → ℕ
unfolding lookup
whites [] c = 0
whites (x ∷ xs) c = (if color_of c x == 0 then 1 else 0) + whites xs c

-- What a step of the search leaves: what is being visited is the same, and what is coloured stays so.
pub record IsLater (c c' : Colors) : Type 0 where
  pub grey : (x : Text) → (color_of c' x == 1) ≡ (color_of c x == 1)
  pub colored : (x : Text) → (color_of c x == 0) ≡ false → (color_of c' x == 0) ≡ false

pub whites-IsLater :
    (universe : List Text) (c c' : Colors)
    → ((x : Text) → (color_of c x == 0) ≡ false → (color_of c' x == 0) ≡ false)
    → whites universe c' ≤ whites universe c
unfolding whites
whites-IsLater [] c c' h = omega arith
whites-IsLater (x ∷ xs) c c' h = ground (arith, h x, whites-IsLater xs c c' h)

pub whites-grey :
    (universe : List Text) (u : Text) (c : Colors)
    → (color_of c u == 0) ≡ true
    → member u universe ≡ true
    → whites universe (insert u 1 c) < whites universe c
unfolding whites member
whites-grey [] u c h m = cc
whites-grey (x ∷ xs) u c h m =
    let rest : whites xs (insert u 1 c) ≤ whites xs c =
      whites-IsLater xs c (insert u 1 c) (λ y e. ground (arith, color_of-insert u y 1 c)) in
    elim (Bool-cases (text_eq u x)) [
      | inl e ↦
          let same : u ≡ x = (text_eq_iff u x).0 e in
          ground (arith, color_of-insert u x 1 c, rest, ap (color_of c) same)
      | inr e ↦ ground (arith, color_of-insert u x 1 c, whites-grey xs u c h (ground arith))
    ]

module _ (next : Text → List Text) where
  -- The chunks that are done, the last one first, and that there are no other colours.
  pub record IsColored (c : Colors) (order : List Text) : Type 0 where
    pub black : (x : Text) → (color_of c x == 2) ≡ member x order
    pub below : (x : Text) → color_of c x ≤ 2
    pub ordered : IsOrder next order

  pub grey-IsColored :
      (u : Text) (c : Colors) (order : List Text)
      → (color_of c u == 0) ≡ true
      → IsColored c order
      → IsColored (insert u 1 c) order
  grey-IsColored u c order w h = record {
    black = λ x. elim (Bool-cases (text_eq u x)) [
      | inl e ↦
          ground
            (arith, color_of-insert u x 1 c, h.black x, ap (color_of c) ((text_eq_iff u x).0 e))
      | inr e ↦ ground (arith, color_of-insert u x 1 c, h.black x)
    ];
    below = λ x. ground (arith, color_of-insert u x 1 c, h.below x);
    ordered = h.ordered;
  }

  pub black-IsColored :
      (u : Text) (c : Colors) (order : List Text)
      → (color_of c u == 1) ≡ true
      → ((v : Text) → member v (next u) ≡ true → member v order ≡ true)
      → IsColored c order
      → IsColored (insert u 2 c) (u ∷ order)
  unfolding member
  black-IsColored u c order g done h = record {
    black =
        λ x. ground (arith, color_of-insert u x 2 c, h.black x, text_eq_iff u x, text_eq_iff x u);
    below = λ x. ground (arith, color_of-insert u x 2 c, h.below x);
    ordered = (ground (arith, h.black u), done, h.ordered);
  }
