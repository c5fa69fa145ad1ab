-- ===== src/Vfs/Memory/Content/Patch.antt =====
-- A patch replaces one occurrence of its old text.
use satis.Base.{
  Text, text_eq, length, drop, true, Bool-cases, inl, inr, some, [], ◌∷◌, ◌++◌, ◌≡◌, ◌≢◌, refl, sym,
  ap, ◌∙◌, arith,
}
use satis.Vfs.Types.{FileKind, mode_patch_text, WriteInput, PatchTextInput, ok}
use satis.Vfs.Memory.{MemoryContent}
use satis.Vfs.Memory.Content.{
  starts_with, count_from, replace_first, patched, next_content, patch_or_invalid,
}

pub starts_with-append : (old s : Text) → starts_with old s ≡ true → s ≡ old ++ drop (length old) s
unfolding starts_with
starts_with-append [] s h = refl
starts_with-append (c ∷ cs) [] h = cc
starts_with-append (c ∷ cs) (d ∷ ds) h = ground (arith, starts_with-append cs ds)

-- A text taken apart at an occurrence, and put together with another.
pub record IsReplaced (old new s t : Text) : Type 0 where
  pub before : Text
  pub behind : Text
  pub whole : s ≡ before ++ old ++ behind
  pub replaced : t ≡ before ++ new ++ behind

replace_first-IsReplaced :
    (old new s : Text) → count_from 0 s old ≢ 0 → IsReplaced old new s (replace_first old new s)
unfolding count_from replace_first
replace_first-IsReplaced old new [] h = absurd (h refl)
replace_first-IsReplaced old new (c ∷ cs) h = elim (Bool-cases (starts_with old (c ∷ cs))) [
  | inl hit ↦ record {
    before = [];
    behind = drop (length old) (c ∷ cs);
    whole = starts_with-append old (c ∷ cs) hit;
    replaced = rw hit;
  }
  | inr miss ↦
      let r = replace_first-IsReplaced old new cs (λ e. h (rw miss (ground arith))) in
      record {
        before = c ∷ r.before;
        behind = r.behind;
        whole = ap (◌∷◌ c) r.whole;
        replaced = rw miss (ap (◌∷◌ c) r.replaced);
      }
]

patched-ok :
    (current : Text) (patch : PatchTextInput) (v : MemoryContent)
    → patched current patch ≡ ok v
    → (count_from 0 current patch.old_text ≡ 1)
      × (replace_first patch.old_text patch.new_text current ≡ v.text)
unfolding patched
patched-ok current patch v h = ground arith

accepted :
    (kind : FileKind) (current v : MemoryContent) (patch : PatchTextInput)
    → patch_or_invalid kind current (some patch) ≡ ok v
    → patched current.text patch ≡ ok v
accepted kind current v patch h = ground arith

patch_mode :
    (kind : FileKind) (current : MemoryContent) (input : WriteInput)
    → input.mode ≡ mode_patch_text
    → next_content kind current input ≡ patch_or_invalid kind current input.patch_text
unfolding next_content text_eq
patch_mode kind current input h = rw h

-- A write in patch mode that is accepted counted one match of the old text, and its new content is
-- the old one with an occurrence of the old text replaced by the new text.
pub next_content-IsReplaced :
    (kind : FileKind) (current v : MemoryContent) (input : WriteInput) (patch : PatchTextInput)
    → input.mode ≡ mode_patch_text
    → input.patch_text ≡ some patch
    → next_content kind current input ≡ ok v
    → (count_from 0 current.text patch.old_text ≡ 1)
      × IsReplaced patch.old_text patch.new_text current.text v.text
next_content-IsReplaced kind current v input patch mode here h =
    let (once, result) = patched-ok current.text patch v (
      accepted kind current v patch (
        ap (patch_or_invalid kind current) (sym here)
        ∙ sym (patch_mode kind current input mode)
        ∙ h)) in
    let r =
      replace_first-IsReplaced patch.old_text patch.new_text current.text (omega (arith, once)) in
    (
      once,
      record {
        before = r.before;
        behind = r.behind;
        whole = r.whole;
        replaced = sym result ∙ r.replaced;
      },
    )
