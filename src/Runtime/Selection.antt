-- ===== src/Runtime/Selection.antt =====
-- What a selector selects.
use mathlib.Core.List.{reverse-append}
use satis.Base.{
  ℕ, zero, suc, ◌+◌, ◌-◌, ◌≤◌, ◌<◌, ltb, leb, length, take, drop, Bool, true, false, ◌&&◌,
  if◌then◌else◌, Bool-cases, inl, inr, Option, none, some, List, [], ◌∷◌, ◌++◌, reverse,
  length-append, ◌≡◌, refl, sym, ap, ◌∙◌, arith,
}
use satis.Base.Ints.{ℤ, pos, negsuc}
use satis.Language.Ast.{ListSelector}
use satis.Runtime.{
  RuntimeValue, text, text_list, object, object_list, conversation, from_end, normalize_index,
  clamp, slice_start, slice_end, normalize_slice_bounds, item, item_at, items_at,
  apply_list_selector,
}

-- A position is not before a bound; a negative one counts from the end of the list.
abbrev pub not_before : ℤ → ℕ → ℕ → Bool
not_before (pos n) len i = leb n i
not_before (negsuc n) len i = leb len (i + suc n)

abbrev pub is_before : ℤ → ℕ → ℕ → Bool
is_before (pos n) len i = ltb i n
is_before (negsuc n) len i = ltb (i + suc n) len

abbrev pub is_selected : ListSelector → ℕ → ℕ → Bool
is_selected selector len i =
    (if selector.has_start then not_before selector.start len i else true)
    && (if selector.has_end then is_before selector.end len i else true)

module _ {ℓ} {A : Type ℓ} where
  -- The elements whose positions pass a test; the first one has the position k.
  abbrev pub keep_from : (ℕ → Bool) → ℕ → List A → List A
  keep_from test k [] = []
  keep_from test k (x ∷ xs) =
      let rest = keep_from test (suc k) xs in if test k then x ∷ rest else rest

  keep_from_cong :
      (test test' : ℕ → Bool) (k : ℕ) (xs : List A)
      → ((i : ℕ) → i < k + length xs → test i ≡ test' i)
      → keep_from test k xs ≡ keep_from test' k xs
  keep_from_cong test test' k [] same = refl
  keep_from_cong test test' k (x ∷ xs) same =
      rw (same k (omega arith))
        (rw (keep_from_cong test test' (suc k) xs (λ i l. same i (omega arith))) refl)

  drop-nothing : (a : ℕ) → drop {A = A} a [] ≡ []
  drop-nothing zero = refl
  drop-nothing (suc a) = refl

  take-nothing : (b : ℕ) → take {A = A} b [] ≡ []
  take-nothing zero = refl
  take-nothing (suc b) = refl

  -- The positions from s on and before e, where a and b are their distances from the first one.
  keep_range :
      (s e k : ℕ) (xs : List A) (a b : ℕ)
      → s - k ≡ a
      → e - k ≡ b
      → keep_from (λ i. leb s i && ltb i e) k xs ≡ drop a (take b xs)
  keep_range s e k [] a b p q = rw (take-nothing b) (sym (drop-nothing a))
  keep_range s e k (x ∷ xs) a zero p q =
      let past : ltb k e ≡ false = ground arith in
      let out : (leb s k && ltb k e) ≡ false = ground arith in
      rw out (
        keep_range s e (suc k) xs (s - suc k) 0 refl (omega arith)
        ∙ drop-nothing (s - suc k)
        ∙ sym (drop-nothing a))
  keep_range s e k (x ∷ xs) zero (suc b) p q =
      let within : (leb s k && ltb k e) ≡ true = ground arith in
      rw within (ap (λ ys. x ∷ ys) (keep_range s e (suc k) xs zero b (omega arith) (omega arith)))
  keep_range s e k (x ∷ xs) (suc a) (suc b) p q =
      let out : (leb s k && ltb k e) ≡ false = ground arith in
      rw out (keep_range s e (suc k) xs a b (omega arith) (omega arith))

not_before-clamp :
    (bound : ℤ) (len i : ℕ)
    → i < len
    → not_before bound len i ≡ leb (clamp (from_end bound len) len) i
not_before-clamp (pos n) len i l = ground arith
not_before-clamp (negsuc n) len i l = elim (Bool-cases (ltb n len)) [
  | inl e ↦ rw e (ground arith)
  | inr e ↦ rw e (ground arith)
]

is_before-clamp :
    (bound : ℤ) (len i : ℕ)
    → i < len
    → is_before bound len i ≡ ltb i (clamp (from_end bound len) len)
is_before-clamp (pos n) len i l = ground arith
is_before-clamp (negsuc n) len i l = elim (Bool-cases (ltb n len)) [
  | inl e ↦ rw e (ground arith)
  | inr e ↦ rw e (ground arith)
]

start_lem :
    (selector : ListSelector) (len i : ℕ)
    → i < len
    → (if selector.has_start then not_before selector.start len i else true)
      ≡ leb (slice_start selector len) i
start_lem selector len i l = elim (Bool-cases selector.has_start) [
  | inl e ↦ rw e (not_before-clamp selector.start len i l)
  | inr e ↦ rw e (ground arith)
]

end_lem :
    (selector : ListSelector) (len i : ℕ)
    → i < len
    → (if selector.has_end then is_before selector.end len i else true)
      ≡ ltb i (slice_end selector len)
end_lem selector len i l = elim (Bool-cases selector.has_end) [
  | inl e ↦ rw e (is_before-clamp selector.end len i l)
  | inr e ↦ rw e (ground arith)
]

ordered_lem : (s e i : ℕ) → (leb s i && ltb i e) ≡ (leb s i && ltb i (if ltb e s then s else e))
ordered_lem s e i = ground arith

-- An end before the start is the start.
bounds_lem :
    (selector : ListSelector) (len i : ℕ)
    → i < len
    → is_selected selector len i ≡ (
        leb (normalize_slice_bounds selector len).0 i
        && ltb i (normalize_slice_bounds selector len).1)
unfolding normalize_slice_bounds
bounds_lem selector len i l =
    let s = start_lem selector len i l in
    let e = end_lem selector len i l in
    rw (s, e) (ordered_lem (slice_start selector len) (slice_end selector len) i)

module _ {ℓ} {A : Type ℓ} where
  items_at-keep_from :
      (selector : ListSelector) (xs : List A)
      → items_at selector xs ≡ keep_from (is_selected selector (length xs)) 0 xs
  items_at-keep_from selector xs =
      let bounds = normalize_slice_bounds selector (length xs) in
      sym (
        keep_from_cong (is_selected selector (length xs)) (λ i. leb bounds.0 i && ltb i bounds.1) 0
          xs (λ i l. bounds_lem selector (length xs) i (omega arith))
        ∙ keep_range bounds.0 bounds.1 0 xs bounds.0 bounds.1 (omega arith) (omega arith))

-- What is selected of a list: the item at the index, which counts from the end if it is negative, or the
-- items whose positions are between the bounds.
abbrev pub expected_item {ℓ} : {A : Type ℓ} → ℤ → List A → Option A
expected_item (pos n) xs = item n xs
expected_item (negsuc n) xs = item n (reverse xs)

module _ {ℓ} {A : Type ℓ} where
  item_past : (n : ℕ) (xs : List A) → length xs ≤ n → item n xs ≡ none
  item_past n [] l = refl
  item_past zero (x ∷ xs) l = absurd (omega arith)
  item_past (suc n) (x ∷ xs) l = item_past n xs (omega arith)

  item_front : (n : ℕ) (xs ys : List A) → n < length xs → item n (xs ++ ys) ≡ item n xs
  item_front n [] ys l = absurd (omega arith)
  item_front zero (x ∷ xs) ys l = refl
  item_front (suc n) (x ∷ xs) ys l = item_front n xs ys (omega arith)

  item_last : (n : ℕ) (xs : List A) (x : A) → n ≡ length xs → item n (xs ++ x ∷ []) ≡ some x
  item_last zero [] x e = refl
  item_last zero (y ∷ xs) x e = absurd (omega arith)
  item_last (suc n) [] x e = absurd (omega arith)
  item_last (suc n) (y ∷ xs) x e = item_last n xs x (omega arith)

  length-reverse : (xs : List A) → length (reverse xs) ≡ length xs
  length-reverse [] = refl
  length-reverse (x ∷ xs) =
      rw (reverse-append (x ∷ []) xs)
        (length-append (reverse xs) (x ∷ []) ∙ omega (arith, length-reverse xs))

  -- Counted from the end.
  item-reverse :
      (n : ℕ) (xs : List A) → n < length xs → item n (reverse xs) ≡ item (length xs - suc n) xs
  item-reverse n [] l = absurd (omega arith)
  item-reverse n (x ∷ xs) l = elim (Bool-cases (ltb n (length xs))) [
    | inl e ↦
        let rest : length (x ∷ xs) - suc n ≡ suc (length xs - suc n) = ground arith in
        rw (reverse-append (x ∷ []) xs, rest)
          (item_front n (reverse xs) (x ∷ []) (ground (arith, length-reverse xs))
            ∙ item-reverse n xs (ground arith))
    | inr e ↦
        let rest : length (x ∷ xs) - suc n ≡ 0 = ground arith in
        rw (reverse-append (x ∷ []) xs, rest)
          (item_last n (reverse xs) x (ground (arith, length-reverse xs)))
  ]

  abbrev found_at : Option ℕ → List A → Option A
  found_at none xs = none
  found_at (some n) xs = item n xs

  index_lem :
      (index : ℤ) (xs : List A)
      → found_at (normalize_index index (length xs)) xs ≡ expected_item index xs
  unfolding normalize_index
  index_lem (pos n) xs = elim (Bool-cases (ltb n (length xs))) [
    | inl e ↦ rw e refl
    | inr e ↦ rw e (sym (item_past n xs (ground arith)))
  ]
  index_lem (negsuc n) xs = elim (Bool-cases (ltb n (length xs))) [
    | inl e ↦
        let within : ltb (length xs - suc n) (length xs) ≡ true = ground arith in
        rw (e, normalize_index) (rw (within) (sym (item-reverse n xs (ground arith))))
    | inr e ↦
        rw (e, normalize_index) (sym (item_past n (reverse xs) (ground (arith, length-reverse xs))))
  ]

  item_at-found :
      (selector : ListSelector) (xs : List A) (o : Option ℕ)
      → normalize_index selector.index (length xs) ≡ o
      → item_at selector xs ≡ found_at o xs
  item_at-found selector xs none e = rw (e, item_at) refl
  item_at-found selector xs (some n) e = rw (e, item_at) refl

  pub item_at-expected :
      (selector : ListSelector) (xs : List A)
      → item_at selector xs ≡ expected_item selector.index xs
  item_at-expected selector xs =
      item_at-found selector xs (normalize_index selector.index (length xs)) refl
      ∙ index_lem selector.index xs

-- The value that a selector is to select, for each kind of value.
abbrev pub expected_selection : RuntimeValue → ListSelector → Option RuntimeValue
expected_selection (text_list texts) selector =
    if selector.has_index
    then (elim (expected_item selector.index texts) [ none ↦ none | some t ↦ some (text t) ])
    else some (text_list (keep_from (is_selected selector (length texts)) 0 texts))
expected_selection (object_list objects) selector =
    if selector.has_index
    then (elim (expected_item selector.index objects) [ none ↦ none | some o ↦ some (object o) ])
    else some (object_list (keep_from (is_selected selector (length objects)) 0 objects))
expected_selection _ selector = none

-- A selector of a list selects the item at its index, which counts from the end if it is negative, or
-- the items whose positions are not before its start and before its end, of which a negative one counts from the
-- end; no other value is selected from, and no index outside the list selects.
pub apply_list_selector-expected :
    (rv : RuntimeValue) (selector : ListSelector)
    → apply_list_selector rv selector ≡ expected_selection rv selector
unfolding apply_list_selector
apply_list_selector-expected (text_list texts) selector = elim (Bool-cases selector.has_index) [
  | inl e ↦ rw e (rw (item_at-expected selector texts) refl)
  | inr e ↦ rw e (ap (λ xs. some (text_list xs)) (items_at-keep_from selector texts))
]
apply_list_selector-expected (object_list objects) selector = elim (Bool-cases selector.has_index) [
  | inl e ↦ rw e (rw (item_at-expected selector objects) refl)
  | inr e ↦ rw e (ap (λ xs. some (object_list xs)) (items_at-keep_from selector objects))
]
apply_list_selector-expected (text t) selector = refl
apply_list_selector-expected (object o) selector = refl
apply_list_selector-expected (conversation messages) selector = refl
