-- ===== src/Base/Decimal.antt =====
-- `%d` of fmt and strconv.FormatUint in base ten.
use Prim.Native.Nat.{ℕ, zero, suc, ◌+◌, ◌*◌, ◌/◌, ◌%◌, ◌<◌, ◌-◌}
use mathlib.Core.Path.{◌≡◌, ap, sym, ◌∙◌}
use mathlib.Core.List.{[], ◌∷◌}
use mathlib.Core.Logic.{inl, inr}
use native.Mathlib.Omega.{arith}
use satis.Base.Tests.{ltb, if◌then◌else◌, Bool-cases}
use satis.Base.Words.{Text}

-- The digits of `n` in front of `done`; the fuel is over `n`.
digits : ℕ → ℕ → Text → Text
digits zero n done = done
digits (suc f) n done =
    let now = (48 + n % 10) ∷ done in
    let rest = digits f (n / 10) now in if ltb n 10 then now else rest

unfoldable pub decimal : ℕ → Text
unfolding digits
decimal n = digits (suc n) n []

-- The number that digits stand for, read after `acc`.
value : ℕ → Text → ℕ
value acc [] = acc
value acc (c ∷ cs) = value (acc * 10 + (c - 48)) cs

value-digits : (f n : ℕ) (done : Text) → n < f → value 0 (digits f n done) ≡ value n done
unfolding value digits
value-digits zero n done h = elim h [ ]
value-digits (suc f) n done h = elim (Bool-cases (ltb n 10)) [
  | inl small ↦ rw small (ap (λ k. value k done) (ground arith))
  | inr large ↦ rw large (
      value-digits f (n / 10) ((48 + n % 10) ∷ done) (ground arith)
      ∙ ap (λ k. value k done) (omega arith))
]

pub decimal-injective : (m n : ℕ) → decimal m ≡ decimal n → m ≡ n
unfolding decimal value
decimal-injective m n e =
    sym (value-digits (suc m) m [] (omega arith))
    ∙ ap (value 0) e
    ∙ value-digits (suc n) n [] (omega arith)
