-- ===== src/Bridge/Cycle/Correct.antt =====
-- The search for a cycle ends, and finds one exactly if there is one.
use satis.Base.{
  ℕ, suc, ◌<◌, Text, text_eq, text_eq_iff, Map, lookup, word_eq, length, true, false, ◌==◌,
  Bool-cases, inl, inr, ◌↔◌, List, [], ◌∷◌, ◌++◌, ◌≡◌, ◌≢◌, refl, sym, ap, subst, ◌∙◌, arith,
}
use satis.Bridge.Search.{member}
use satis.Bridge.Search.Pushes.{member-append}
use satis.Bridge.Search.Paths.{member_self, Leads}
use satis.Bridge.Graph.{targets, all_targets}
use satis.Bridge.Graph.Checks.{member-targets}
use satis.Bridge.Cycle.{
  Colors, color_of, Visit, found, clear, out_of_fuel, dfs, search_all, cycle_search, is_found,
  has_cycle,
}
use satis.Bridge.Cycle.Visits.{Ends, dfs-Ends}
use satis.Bridge.Cycle.Order.{IsOrder, order_acyclic}
use satis.Bridge.Cycle.Colors.{whites, IsLater, whites-IsLater, IsColored}

-- Nothing is being visited.
abbrev NoGrey : Colors → Type 0
NoGrey c = (x : Text) → (color_of c x == 1) ≡ false

module _ (adj : Map Text (List Text)) where
  -- What is to hold at the end of the loop over the chunks.
  abbrev AllEnd : List Text → List Text → Visit → Type 0
  AllEnd ids order found = (w : Text) × Leads (targets adj) w w
  AllEnd ids order (clear c) =
      (order' : List Text) × IsOrder (targets adj) order'
      × ((x : Text) → member x order ≡ true → member x order' ≡ true)
      × ((x : Text) → member x ids ≡ true → member x order' ≡ true)
  AllEnd ids order out_of_fuel = ⊥

  AllEnd-cons :
      (id : Text) (ids order order' : List Text)
      → ((x : Text) → member x order ≡ true → member x order' ≡ true)
      → member id order' ≡ true
      → (o : Visit) → AllEnd ids order' o
      → AllEnd (id ∷ ids) order o
  unfolding member
  AllEnd-cons id ids order order' kept m found h = h
  AllEnd-cons id ids order order' kept m out_of_fuel h = h
  AllEnd-cons id ids order order' kept m (clear c) (done, o, k, a) = (
    done,
    o,
    λ x e. k x (kept x e),
    λ x e. elim (Bool-cases (text_eq x id)) [
      | inl s ↦ k x (ap (λ y. member y order') ((text_eq_iff x id).0 s) ∙ m)
      | inr s ↦ a x (ground arith)
    ],
  )

module _ (adj : Map Text (List Text)) (universe : List Text)
    (inside : (x y : Text) → member y (targets adj x) ≡ true → member y universe ≡ true) where
  search_next :
      (fuel : ℕ) (id : Text) (ids : List Text) (c : Colors) (order : List Text)
      → (color_of c id == 0) ≡ true
      → NoGrey c
      → ((c' : Colors) (order' : List Text)
          → IsColored (targets adj) c' order'
          → IsLater c c'
          → NoGrey c'
          → AllEnd adj ids order' (search_all fuel adj ids c'))
      → (o : Visit) → dfs fuel adj id c ≡ o
      → Ends (targets adj) (id ∷ []) c order o
      → AllEnd adj (id ∷ ids) order (search_all fuel adj (id ∷ ids) c)
  unfolding search_all
  search_next fuel id ids c order white clean rest found e h = rw (white, search_all) (rw e h)
  search_next fuel id ids c order white clean rest out_of_fuel e h = absurd h
  search_next fuel id ids c order white clean rest (clear c') e (order', d) =
      rw (white, search_all)
        (rw e (
          AllEnd-cons adj id ids order order' d.kept (d.all_done id (member_self id []))
            (search_all fuel adj ids c')
            (rest c' order' d.colored d.later (λ x. d.later.grey x ∙ clean x))))

  search_all-AllEnd :
      (fuel : ℕ) (ids : List Text) (c : Colors) (order : List Text)
      → IsColored (targets adj) c order
      → NoGrey c
      → ((x : Text) → member x ids ≡ true → member x universe ≡ true)
      → whites universe c < fuel
      → AllEnd adj ids order (search_all fuel adj ids c)
  unfolding search_all member
  search_all-AllEnd fuel [] c order h clean known room = (order, h.ordered, λ x m. m, λ x m. cc)
  search_all-AllEnd fuel (id ∷ ids) c order h clean known room =
      elim (Bool-cases (color_of c id == 0)) [
        | inl white ↦
            search_next fuel id ids c order white clean
              (λ c' order' k l n.
                search_all-AllEnd fuel ids c' order' k n (λ x m. known x (ground arith))
                  (omega (arith, whites-IsLater universe c c' l.colored)))
              (dfs fuel adj id c) refl
              (dfs-Ends adj universe inside fuel id c order h (λ g e. absurd (cc (sym e ∙ clean g)))
                (known id (member_self id ids)) room)
        | inr done ↦
            let black : member id order ≡ true = ground (arith, h.black id, clean id, h.below id) in
            rw (done, search_all)
              (AllEnd-cons adj id ids order order (λ x m. m) black (search_all fuel adj ids c)
                (search_all-AllEnd fuel ids c order h clean (λ x m. known x (ground arith)) room))
      ]

whites_of_empty : (universe : List Text) → whites universe [] ≡ length universe
unfolding whites lookup
whites_of_empty [] = refl
whites_of_empty (x ∷ xs) = omega (arith, whites_of_empty xs)

module _ (ids : List Text) (adj : Map Text (List Text)) where
  cycle_search-AllEnd : AllEnd adj ids [] (cycle_search ids adj)
  unfolding cycle_search lookup member
  cycle_search-AllEnd =
      search_all-AllEnd adj (ids ++ all_targets adj)
        (λ x y m. ground (arith, member-append y ids (all_targets adj), member-targets adj x y m))
        (suc (length (ids ++ all_targets adj))) ids [] []
        (record { black = λ x. refl; below = λ x. omega arith; ordered = tt }) (λ x. refl)
        (λ x m. ground (arith, member-append x ids (all_targets adj)))
        (omega (arith, whites_of_empty (ids ++ all_targets adj)))

  -- The depth of the recursion of hasCycle stays within the number of chunks and targets.
  pub cycle_search_ends : cycle_search ids adj ≢ out_of_fuel
  cycle_search_ends e = subst (AllEnd adj ids []) e cycle_search-AllEnd

  leaves :
      (x : Text)
      → member x ids ≡ false
      → ((u v : Text) → member v (targets adj u) ≡ true → member u ids ≡ true)
      → ¬ Leads (targets adj) x x
  leaves x out inside (v, m, r) = cc (sym out ∙ inside x v m)

  found_or_not :
      ((u v : Text) → member v (targets adj u) ≡ true → member u ids ≡ true)
      → (o : Visit) → AllEnd adj ids [] o
      → (is_found o ≡ true) ↔ ((w : Text) × Leads (targets adj) w w)
  found_or_not inside found h = (λ e. h, λ l. refl)
  found_or_not inside out_of_fuel h = absurd h
  found_or_not inside (clear c) (order, o, kept, done) = (
    λ e. cc,
    λ (w, l). absurd (elim (Bool-cases (member w ids)) [
      | inl m ↦ order_acyclic (targets adj) order o w (done w m) l
      | inr n ↦ leaves w n inside l
    ]),
  )

  -- Where the edges are between the chunks, hasCycle finds a cycle exactly if a path of at least one
  -- edge leads from some chunk back to itself.
  pub has_cycle_iff :
      ((u v : Text) → member v (targets adj u) ≡ true → member u ids ≡ true)
      → (has_cycle ids adj ≡ true) ↔ ((w : Text) × Leads (targets adj) w w)
  unfolding has_cycle
  has_cycle_iff inside = found_or_not inside (cycle_search ids adj) cycle_search-AllEnd
