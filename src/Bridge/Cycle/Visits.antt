-- ===== src/Bridge/Cycle/Visits.antt =====
-- What a visit of the search for a cycle leaves.
use satis.Base.{
  ℕ, zero, suc, ◌<◌, Text, text_eq, text_eq_iff, text_eq_refl, Map, insert, word_eq, true, ◌==◌,
  Bool-cases, inl, inr, List, [], ◌∷◌, ◌≡◌, refl, sym, ap, subst, ◌∙◌, arith,
}
use satis.Bridge.Search.{member}
use satis.Bridge.Search.Paths.{only_member, Leads, Leads-edge, Leads-step}
use satis.Bridge.Graph.{targets}
use satis.Bridge.Cycle.{Colors, color_of, Visit, found, clear, out_of_fuel, visit_each, finish, dfs}
use satis.Bridge.Cycle.Colors.{
  color_of-insert, whites, IsLater, whites-IsLater, whites-grey, IsColored, grey-IsColored,
  black-IsColored,
}

module _ (next : Text → List Text) where
  -- The state behind the visits of some chunks, which are done.
  pub record IsDone (vs : List Text) (c : Colors) (order : List Text) (c' : Colors)
      (order' : List Text) : Type 0 where
    pub colored : IsColored next c' order'
    pub later : IsLater c c'
    pub kept : (x : Text) → member x order ≡ true → member x order' ≡ true
    pub all_done : (v : Text) → member v vs ≡ true → member v order' ≡ true

  IsDone-trans :
      (v : Text) (vs : List Text) (c c' c'' : Colors) (order order' order'' : List Text)
      → IsDone (v ∷ []) c order c' order'
      → IsDone vs c' order' c'' order''
      → IsDone (v ∷ vs) c order c'' order''
  unfolding member
  IsDone-trans v vs c c' c'' order order' order'' d d' = record {
    colored = d'.colored;
    later = record {
      grey = λ x. d'.later.grey x ∙ d.later.grey x;
      colored = λ x h. d'.later.colored x (d.later.colored x h);
    };
    kept = λ x m. d'.kept x (d.kept x m);
    all_done = λ x m. elim (Bool-cases (text_eq x v)) [
      | inl e ↦ d'.kept x (d.all_done x (rw e))
      | inr e ↦ d'.all_done x (ground arith)
    ];
  }

  -- What is to hold at the end of the visits of some chunks.
  abbrev pub Ends : List Text → Colors → List Text → Visit → Type 0
  Ends vs c order found = (w : Text) × Leads next w w
  Ends vs c order (clear c') = (order' : List Text) × IsDone vs c order c' order'
  Ends vs c order out_of_fuel = ⊥

  -- What is being visited leads to a chunk.
  abbrev pub GreysLead : Colors → Text → Type 0
  GreysLead c u = (g : Text) → (color_of c g == 1) ≡ true → Leads next g u

  module _ (universe : List Text) (fuel : ℕ) where
    abbrev pub Visits : (Text → Colors → Visit) → Type 0
    Visits visit =
        (v : Text) (c : Colors) (order : List Text)
        → IsColored next c order
        → GreysLead c v
        → member v universe ≡ true
        → whites universe c < fuel
        → Ends (v ∷ []) c order (visit v c)

    visit_next :
        (visit : Text → Colors → Visit) (v : Text) (vs : List Text) (c : Colors) (order : List Text)
        → ((c' : Colors) (order' : List Text)
            → IsColored next c' order'
            → IsLater c c'
            → Ends vs c' order' (visit_each visit vs c'))
        → (o : Visit) → visit v c ≡ o
        → Ends (v ∷ []) c order o
        → Ends (v ∷ vs) c order (visit_each visit (v ∷ vs) c)
    unfolding visit_each
    visit_next visit v vs c order rest found e h = rw (e, visit_each) h
    visit_next visit v vs c order rest out_of_fuel e h = absurd h
    visit_next visit v vs c order rest (clear c') e (order', d) =
        rw (e, visit_each) (joined (visit_each visit vs c') (rest c' order' d.colored d.later))
      where
        joined : (o : Visit) → Ends vs c' order' o → Ends (v ∷ vs) c order o
        joined found h = h
        joined out_of_fuel h = h
        joined (clear c'') (order'', d') =
            (order'', IsDone-trans v vs c c' c'' order order' order'' d d')

    visit_each-Ends :
        (visit : Text → Colors → Visit)
        → Visits visit
        → (vs : List Text) (c : Colors) (order : List Text) → IsColored next c order
        → ((v : Text) → member v vs ≡ true → GreysLead c v)
        → ((v : Text) → member v vs ≡ true → member v universe ≡ true)
        → whites universe c < fuel
        → Ends vs c order (visit_each visit vs c)
    unfolding visit_each member
    visit_each-Ends visit good [] c order h lead inside room = (
      order,
      record {
        colored = h;
        later = record { grey = λ x. refl; colored = λ x e. e };
        kept = λ x m. m;
        all_done = λ v m. cc;
      },
    )
    visit_each-Ends visit good (v ∷ vs) c order h lead inside room =
        visit_next visit v vs c order
          (λ c' order' k l.
            visit_each-Ends visit good vs c' order' k
              (λ x m g e. lead x (ground arith) g (sym (l.grey g) ∙ e))
              (λ x m. inside x (ground arith))
              (omega (arith, whites-IsLater universe c c' l.colored)))
          (visit v c) refl
          (good v c order h (lead v (ground (arith, text_eq_refl v)))
            (inside v (ground (arith, text_eq_refl v))) room)

  module _ (u : Text) (c : Colors) (order : List Text) (white : (color_of c u == 0) ≡ true) where
    -- The chunk is done once its targets are.
    finish-Ends :
        (vs : List Text)
        → ((v : Text) → member v (next u) ≡ true → member v vs ≡ true)
        → (o : Visit) → Ends vs (insert u 1 c) order o
        → Ends (u ∷ []) c order (finish u o)
    unfolding member
    finish-Ends vs all found h = h
    finish-Ends vs all out_of_fuel h = h
    finish-Ends vs all (clear c') (order', d) = (
      u ∷ order',
      record {
        colored =
            black-IsColored next u c' order'
              (ground (arith, d.later.grey u, color_of-insert u u 1 c, text_eq_refl u))
              (λ v m. d.all_done v (all v m)) d.colored;
        later = record {
          grey = λ x. elim (Bool-cases (text_eq u x)) [
            | inl e ↦
                ground (arith, color_of-insert u x 2 c', ap (color_of c) ((text_eq_iff u x).0 e))
            | inr e ↦
                ground (arith, color_of-insert u x 2 c', color_of-insert u x 1 c, d.later.grey x)
          ];
          colored = λ x h. elim (Bool-cases (text_eq u x)) [
            | inl e ↦ ground (arith, color_of-insert u x 2 c')
            | inr e ↦
                ground (arith, color_of-insert u x 2 c', color_of-insert u x 1 c, d.later.colored x)
          ];
        };
        kept = λ x m. ground (arith, d.kept x m);
        all_done = λ v m. ground arith;
      },
    )

module _ (adj : Map Text (List Text)) (universe : List Text)
    (inside : (x y : Text) → member y (targets adj x) ≡ true → member y universe ≡ true) where
  leads_below :
      (u : Text) (c : Colors)
      → GreysLead (targets adj) c u
      → (v : Text) → member v (targets adj u) ≡ true
      → GreysLead (targets adj) (insert u 1 c) v
  leads_below u c lead v m g e = elim (Bool-cases (text_eq u g)) [
    | inl s ↦
        subst (λ x. Leads (targets adj) x v) ((text_eq_iff u g).0 s)
          (Leads-edge (targets adj) u v m)
    | inr s ↦ Leads-step (targets adj) g u v (lead g (ground (arith, color_of-insert u g 1 c))) m
  ]

  pub dfs-Ends : (fuel : ℕ) → Visits (targets adj) universe fuel (dfs fuel adj)
  unfolding dfs
  dfs-Ends zero u c order h lead m room = absurd (omega arith)
  dfs-Ends (suc fuel) u c order h lead m room = elim (Bool-cases (color_of c u == 1)) [
    | inl grey ↦ rw (grey, dfs) (u, lead u grey)
    | inr g ↦ elim (Bool-cases (color_of c u == 2)) [
      | inl black ↦
          rw (g, black, dfs)
            (
              order,
              record {
                colored = h;
                later = record { grey = λ x. refl; colored = λ x e. e };
                kept = λ x k. k;
                all_done =
                    λ v k. ap (λ y. member y order) (only_member v u k) ∙ (sym (h.black u) ∙ black);
              },
            )
      | inr b ↦
          let white : (color_of c u == 0) ≡ true = ground (arith, h.below u) in
          rw (g, b, dfs)
            (finish-Ends (targets adj) u c order white (targets adj u) (λ v k. k) _
              (visit_each-Ends (targets adj) universe fuel (dfs fuel adj) (dfs-Ends fuel)
                (targets adj u) (insert u 1 c) order
                (grey-IsColored (targets adj) u c order white h) (leads_below u c lead) (inside u)
                (omega (arith, whites-grey universe u c white m, room))))
    ]
  ]
