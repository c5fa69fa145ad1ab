-- ===== src/Language/Validate/Parsed/Sources.antt =====
-- The chunk that a source gives, and what Validate reports of it.
use satis.Base.{
  ℕ, Text, insert, word_eq, Bool, true, false, Bool-cases, inl, inr, Option, none, some, List, [],
  ◌∷◌, ◌++◌, ◌≡◌, ◌≢◌, refl, sym, subst, ◌∙◌,
}
use satis.Base.All.{All, All-append}
use satis.Vfs.Names.{trim_space}
use satis.Language.Lines.{Parsed, ok, err, LogicalLine, split_logical_lines, is_empty}
use satis.Language.Ast.{Instruction, Chunk, SoftwareRegistry}
use satis.Language.Parse.Chunks.{
  parse_instruction, header_of, with_instruction, parse_line, parse_lines, with_instructions,
  empty_chunk, no_line, parse_from, parse,
}
use satis.Language.Values.Shapes.{Post}
use satis.Language.Validate.{invalid, validate}
use satis.Language.Validate.Forms.{IsFormed, is_fitting, check_instruction-passes}
use satis.Language.Validate.Report.{IsFirstFault, Explains, validate-Explains}
use satis.Language.Validate.Parsed.All.{parse_instruction-IsFormed}

abbrev pub AreFormed : Chunk → Type 0
AreFormed chunk = All IsFormed chunk.instructions

abbrev StepForm : Option (Bool × Chunk) → Type 0
StepForm o = Post (λ next. AreFormed next.1) o

-- Behind the header: the line is an instruction.
after_instruction :
    (registry : SoftwareRegistry) (n : ℕ) (line : Text) (chunk : Chunk)
    → AreFormed chunk
    → (o : Option Instruction) → parse_instruction registry n line ≡ o
    → StepForm (elim o [ none ↦ none | some stmt ↦ some (true, with_instruction stmt chunk) ])
after_instruction registry n line chunk h none e = tt
after_instruction registry n line chunk h (some stmt) e =
    All-append IsFormed chunk.instructions (stmt ∷ []) h
      (parse_instruction-IsFormed registry n line stmt e, tt)

after_header :
    (registry : SoftwareRegistry) (seen : Bool) (n : ℕ) (line : Text) (chunk : Chunk)
    → AreFormed chunk
    → (header : Option (Text × Text))
    → StepForm (elim header [
      | some header ↦ some (seen, record chunk { meta = insert header.0 header.1 chunk.meta })
      | none ↦ elim (parse_instruction registry n line) [
        | none ↦ none
        | some stmt ↦ some (true, with_instruction stmt chunk)
      ]
    ])
after_header registry seen n line chunk h (some header) = h
after_header registry seen n line chunk h none =
    after_instruction registry n line chunk h (parse_instruction registry n line) refl

parse_line-form :
    (registry : SoftwareRegistry) (seen : Bool) (entry : LogicalLine) (chunk : Chunk)
    → AreFormed chunk
    → StepForm (parse_line registry seen entry chunk)
unfolding parse_line
parse_line-form registry seen entry chunk h = elim (Bool-cases (is_empty (trim_space entry.text))) [
  | inl e ↦ rw e h
  | inr e ↦ rw e (
      after_header registry seen entry.line_no (trim_space entry.text) chunk h
        (header_of seen (trim_space entry.text)))
]

-- What holds of what is parsed.
abbrev Holds {ℓ κ} : {A : Type ℓ} → (A → Type κ) → Parsed A → Type κ
Holds P (ok a) = P a
Holds P (err line) = Unit

next_line :
    (registry : SoftwareRegistry) (n : ℕ) (entries : List LogicalLine)
    → ((seen : Bool) (chunk : Chunk)
        → AreFormed chunk
        → Holds AreFormed (parse_lines registry seen entries chunk))
    → (o : Option (Bool × Chunk)) → StepForm o
    → Holds AreFormed
        (elim o [ none ↦ err n | some next ↦ parse_lines registry next.0 entries next.1 ])
next_line registry n entries rest none h = tt
next_line registry n entries rest (some next) h = rest next.0 next.1 h

parse_lines-form :
    (registry : SoftwareRegistry) (seen : Bool) (entries : List LogicalLine) (chunk : Chunk)
    → AreFormed chunk
    → Holds AreFormed (parse_lines registry seen entries chunk)
unfolding parse_lines
parse_lines-form registry seen [] chunk h = h
parse_lines-form registry seen (entry ∷ entries) chunk h =
    next_line registry entry.line_no entries
      (λ seen' chunk' k. parse_lines-form registry seen' entries chunk' k)
      (parse_line registry seen entry chunk) (parse_line-form registry seen entry chunk h)

-- What the parser promises of a chunk: there are instructions, and each has its form.
abbrev pub IsParsed : Chunk → Type 0
IsParsed chunk = (chunk.instructions ≢ []) × AreFormed chunk

cons_not_empty {ℓ} : {A : Type ℓ} (x : A) (xs : List A) → (x ∷ xs) ≢ []
cons_not_empty x xs e = cc

counted :
    (chunk : Chunk) (stmts : List Instruction)
    → chunk.instructions ≡ stmts
    → AreFormed chunk
    → Holds IsParsed (elim stmts [ [] ↦ err no_line | _ ∷ _ ↦ ok chunk ])
counted chunk [] e h = tt
counted chunk (stmt ∷ stmts) e h = (λ f. cons_not_empty stmt stmts (sym e ∙ f), h)

with_instructions-form :
    (parsed : Parsed Chunk) → Holds AreFormed parsed → Holds IsParsed (with_instructions parsed)
with_instructions-form (err line) h = tt
with_instructions-form (ok chunk) h = counted chunk chunk.instructions refl h

pub parse_from-IsParsed :
    (registry : SoftwareRegistry) (seen : Bool) (lines : Parsed (List LogicalLine))
    → Holds IsParsed (parse_from registry seen lines)
parse_from-IsParsed registry seen (err line) = tt
parse_from-IsParsed registry seen (ok lines) =
    with_instructions-form (parse_lines registry seen lines empty_chunk)
      (parse_lines-form registry seen lines empty_chunk tt)

-- A chunk that Parse returns has an instruction at least, and all its instructions have the forms of their
-- statements.
pub parse-IsParsed :
    (registry : SoftwareRegistry) (source : Text) (chunk : Chunk)
    → parse registry source ≡ ok chunk
    → IsParsed chunk
unfolding parse
parse-IsParsed registry source chunk e =
    subst (Holds IsParsed) e (parse_from-IsParsed registry false (split_logical_lines source))

fault-IsFormed :
    (before behind : List Instruction) (stmt : Instruction)
    → All IsFormed (before ++ stmt ∷ behind)
    → IsFormed stmt
fault-IsFormed [] behind stmt h = h.0
fault-IsFormed (x ∷ before) behind stmt h = fault-IsFormed before behind stmt h.1

-- Where Validate refuses an instruction of a chunk that Parse returned, the number it reports is that of the
-- first one that fails, and this one uses a variable known to be a folder as a file, deletes an object of the other
-- kind, or has an unknown mode.
pub validate-parsed :
    (registry : SoftwareRegistry) (source : Text) (chunk : Chunk) (k : ℕ)
    → parse registry source ≡ ok chunk
    → validate chunk ≡ invalid k
    → (fault : IsFirstFault 1 chunk.instructions [] k) × (is_fitting fault.last fault.fault ≡ false)
validate-parsed registry source chunk k p v =
    let fault : IsFirstFault 1 chunk.instructions [] k =
      subst (Explains chunk) v (validate-Explains chunk) in
    (
      fault,
      elim (Bool-cases (is_fitting fault.last fault.fault)) [
        | inr e ↦ e
        | inl e ↦ absurd (
            check_instruction-passes fault.fault fault.last
              (fault-IsFormed fault.before fault.behind fault.fault
                (subst (All IsFormed) fault.parts (parse-IsParsed registry source chunk p).1))
              e fault.fails)
      ],
    )
