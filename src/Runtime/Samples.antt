-- ===== src/Runtime/Samples.antt =====
-- A list of three texts, and selectors of it.
use satis.Base.{bytes, true, some, [], ◌∷◌, ◌≡◌, refl}
use satis.Base.Ints.{pos, negsuc}
use satis.Language.Ast.{ListSelector}
use satis.Language.Values.{no_selector}
use satis.Runtime.{RuntimeValue, text, text_list, apply_list_selector, resolve_path}
use satis.Runtime.Paths.{IsCanonical, resolve_path-IsCanonical}
use satis.Runtime.Selection.{expected_selection, apply_list_selector-expected}

abbrev texts : RuntimeValue
texts = text_list (bytes "a" ∷ bytes "b" ∷ bytes "c" ∷ [])

-- `[-1]`
abbrev last : ListSelector
last = record no_selector { has_index = true; index = negsuc 0 }

-- `[1:-1]`
abbrev middle : ListSelector
middle = record no_selector { has_start = true; start = pos 1; has_end = true; end = negsuc 0 }

last_item : apply_list_selector texts last ≡ some (text (bytes "c"))
unfolding apply_list_selector
last_item = refl

middle_items : apply_list_selector texts middle ≡ some (text_list (bytes "b" ∷ []))
unfolding apply_list_selector
middle_items = refl

apply_list_selector-expected_example :
    apply_list_selector texts middle ≡ expected_selection texts middle
apply_list_selector-expected_example = apply_list_selector-expected texts middle

resolve_path-IsCanonical_example : IsCanonical (resolve_path (bytes "/docs/a") (bytes "../../../b"))
resolve_path-IsCanonical_example = resolve_path-IsCanonical (bytes "/docs/a") (bytes "../../../b")
