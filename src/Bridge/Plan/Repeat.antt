-- ===== src/Bridge/Plan/Repeat.antt =====
-- What the check of a repeated chunk lets through.
use satis.Base.{Text, bytes, text_eq, Bool, true, not, ◌||◌, ◌&&◌, none, some, [], ◌≡◌, ◌≢◌, arith}
use satis.Bridge.Plan.{ChunkRepeat, contains, validate_chunk_repeat}

-- What a repeated chunk needs to run.
pub record IsRepeatable (parses : Text → Bool) (r : ChunkRepeat) (text : Text) : Type 0 where
  pub inputs : r.input_paths ≢ []
  pub given : r.output_tmpl ≢ []
  pub template : parses r.output_tmpl ≡ true
  pub mode :
      ((text_eq r.mode (bytes "per_item")
          && (contains text (bytes "__INPUT_PATH__") && contains text (bytes "__OUTPUT_PATH__")))
        || (text_eq r.mode (bytes "batch") && not (text_eq r.prompt [])))
      ≡ true

-- A repeated chunk that the check lets through has inputs and an output template that is not empty and
-- parses, and either runs per item with both placeholders in its text or as a batch with a prompt.
pub validate_chunk_repeat_accepts :
    (parses : Text → Bool) (r : ChunkRepeat) (text : Text)
    → validate_chunk_repeat parses (some r) text ≡ none
    → IsRepeatable parses r text
unfolding validate_chunk_repeat text_eq
validate_chunk_repeat_accepts parses r text h = record {
  inputs = λ e. ground arith;
  given = λ e. ground arith;
  template = ground arith;
  mode = ground arith;
}
