-- ===== src/Bridge/Cycle/Order.antt =====
-- A list in which each chunk comes before all its targets has no cycle.
use satis.Base.{
  Text, text_eq, text_eq_iff, true, false, Bool-cases, inl, inr, List, [], ◌∷◌, ◌≡◌, sym, ap, ◌∙◌,
  arith,
}
use satis.Bridge.Search.{member}
use satis.Bridge.Search.Reach.{IsReachable, start, step}
use satis.Bridge.Search.Paths.{Leads, only_member}

module _ (next : Text → List Text) where
  -- The targets of each chunk stand behind it, and no chunk stands there twice.
  abbrev pub IsOrder : List Text → Type 0
  IsOrder [] = Unit
  IsOrder (u ∷ rest) =
      (member u rest ≡ false)
      × ((v : Text) → member v (next u) ≡ true → member v rest ≡ true)
      × IsOrder rest

  order_closed :
      (order : List Text)
      → IsOrder order
      → (u v : Text) → member u order ≡ true
      → member v (next u) ≡ true
      → member v order ≡ true
  unfolding member
  order_closed [] o u v m n = cc
  order_closed (x ∷ rest) o u v m n = elim (Bool-cases (text_eq u x)) [
    | inl e ↦ ground (arith, o.1 v (ap (λ y. member v (next y)) (sym ((text_eq_iff u x).0 e)) ∙ n))
    | inr e ↦ ground (arith, order_closed rest o.2 u v (ground arith) n)
  ]

  order_reaches :
      (order : List Text)
      → IsOrder order
      → (a b : Text) → member a order ≡ true
      → IsReachable next (a ∷ []) b
      → member b order ≡ true
  order_reaches order o a b m (start h) = ap (λ x. member x order) (only_member b a h) ∙ m
  order_reaches order o a b m (step {u = w} r n) =
      order_closed order o w b (order_reaches order o a w m r) n

  pub order_acyclic :
      (order : List Text) → IsOrder order → (w : Text) → member w order ≡ true → ¬ Leads next w w
  unfolding member
  order_acyclic [] o w m l = cc
  order_acyclic (x ∷ rest) o w m (v, n, r) = elim (Bool-cases (text_eq w x)) [
    | inl e ↦
        let same : w ≡ x = (text_eq_iff w x).0 e in
        let behind : member v rest ≡ true = o.1 v (ap (λ y. member v (next y)) (sym same) ∙ n) in
        cc (sym (order_reaches rest o.2 v w behind r) ∙ ap (λ y. member y rest) same ∙ o.0)
    | inr e ↦ order_acyclic rest o.2 w (ground arith) (v, n, r)
  ]
