-- ===== src/Bridge/Cycle.antt =====
-- hasCycle (bridge/validate.go): a depth-first search that colours a chunk 1 while it is visited and
-- 2 once it is done.
pub mod Order
pub mod Colors
pub mod Visits
pub mod Correct
use satis.Base.{
  ℕ, zero, suc, Text, Map, lookup, insert, word_eq, length, Bool, true, false, ◌==◌, if◌then◌else◌,
  Option, none, some, List, [], ◌∷◌, ◌++◌,
}
use satis.Bridge.Graph.{targets, all_targets}

abbrev pub Colors : Type 0
Colors = Map Text ℕ

abbrev or_zero : Option ℕ → ℕ
or_zero none = 0
or_zero (some n) = n

-- `color[u]`
abbrev pub color_of : Colors → Text → ℕ
color_of colors u = or_zero (lookup u colors)

-- What a visit ends in: a chunk that is being visited was met again, or the colours at the end.
pub data Visit : Type 0 where
  found : Visit
  clear : Colors → Visit
  out_of_fuel : Visit

-- The loop over the targets of a chunk.
unfoldable pub visit_each : (Text → Colors → Visit) → List Text → Colors → Visit
visit_each visit [] colors = clear colors
visit_each visit (v ∷ vs) colors = elim (visit v colors) [
  | found ↦ found
  | clear colors' ↦ visit_each visit vs colors'
  | out_of_fuel ↦ out_of_fuel
]

abbrev pub finish : Text → Visit → Visit
finish u found = found
finish u (clear colors) = clear (insert u 2 colors)
finish u out_of_fuel = out_of_fuel

-- The function `dfs`; the fuel bounds how deep it calls itself.
unfoldable pub dfs : ℕ → Map Text (List Text) → Text → Colors → Visit
unfolding visit_each lookup insert
dfs zero adj u colors = out_of_fuel
dfs (suc fuel) adj u colors =
    let below = finish u (visit_each (dfs fuel adj) (targets adj u) (insert u 1 colors)) in
    if color_of colors u == 1 then found else if color_of colors u == 2 then clear colors else below

-- The loop over the chunks, those first that are not yet coloured.
unfoldable pub search_all : ℕ → Map Text (List Text) → List Text → Colors → Visit
unfolding dfs
search_all fuel adj [] colors = clear colors
search_all fuel adj (id ∷ ids) colors =
    let skipped = search_all fuel adj ids colors in
    let visited : Visit = elim (dfs fuel adj id colors) [
      | found ↦ found
      | clear colors' ↦ search_all fuel adj ids colors'
      | out_of_fuel ↦ out_of_fuel
    ] in
    if color_of colors id == 0 then visited else skipped

-- A chunk is coloured before the search goes deeper, so it calls itself no deeper than there are
-- chunks and targets.
unfoldable pub cycle_search : List Text → Map Text (List Text) → Visit
unfolding search_all
cycle_search ids adj = search_all (suc (length (ids ++ all_targets adj))) adj ids []

abbrev pub is_found : Visit → Bool
is_found found = true
is_found (clear colors) = false
is_found out_of_fuel = false

unfoldable pub has_cycle : List Text → Map Text (List Text) → Bool
unfolding cycle_search
has_cycle ids adj = is_found (cycle_search ids adj)
