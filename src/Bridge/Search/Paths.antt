-- ===== src/Bridge/Search/Paths.antt =====
-- Paths of edges: put together, read backwards, and of at least one edge.
use satis.Base.{
  Text, text_eq_iff, text_eq_refl, true, List, [], ◌∷◌, ◌≡◌, sym, ap, subst, ◌∙◌, arith,
}
use satis.Bridge.Search.{member}
use satis.Bridge.Search.Reach.{IsReachable, start, step}

pub only_member : (u x : Text) → member u (x ∷ []) ≡ true → u ≡ x
unfolding member
only_member u x h = (text_eq_iff u x).0 (ground arith)

pub member_self : (x : Text) (xs : List Text) → member x (x ∷ xs) ≡ true
unfolding member
member_self x xs = ground (arith, text_eq_refl x)

module _ (next : Text → List Text) where
  pub IsReachable-trans :
      (a b c : Text)
      → IsReachable next (a ∷ []) b
      → IsReachable next (b ∷ []) c
      → IsReachable next (a ∷ []) c
  IsReachable-trans a b c p (start m) =
      subst (IsReachable next (a ∷ [])) (sym (only_member c b m)) p
  IsReachable-trans a b c p (step {u = w} q m) = step (IsReachable-trans a b w p q) m

module _ (next prev : Text → List Text)
    (turn : (u v : Text) → member v (next u) ≡ true → member u (prev v) ≡ true) where
  -- A path read from its end.
  pub IsReachable-flip : (a b : Text) → IsReachable next (a ∷ []) b → IsReachable prev (b ∷ []) a
  IsReachable-flip a b (start m) =
      start (ap (λ x. member x (b ∷ [])) (sym (only_member b a m)) ∙ member_self b [])
  IsReachable-flip a b (step {u = w} p m) =
      IsReachable-trans prev b w a (step (start (member_self b [])) (turn w b m))
        (IsReachable-flip a w p)

-- A path of at least one edge.
abbrev pub Leads : (Text → List Text) → Text → Text → Type 0
Leads next a b = (v : Text) × (member v (next a) ≡ true) × IsReachable next (v ∷ []) b

module _ (next : Text → List Text) where
  pub Leads-edge : (a b : Text) → member b (next a) ≡ true → Leads next a b
  Leads-edge a b m = (b, m, start (member_self b []))

  pub Leads-step : (a b c : Text) → Leads next a b → member c (next b) ≡ true → Leads next a c
  Leads-step a b c (v, m, r) n = (v, m, step r n)
