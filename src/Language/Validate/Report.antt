-- ===== src/Language/Validate/Report.antt =====
-- Which instruction an error of the validator names.
use satis.Base.{
  ℕ, suc, ◌+◌, bytes, lookup, word_eq, length, subst, Bool, true, false, not, if◌then◌else◌, Option,
  none, some, List, [], ◌∷◌, ◌++◌, ◌≡◌, refl, sym, ap, arith,
}
use satis.Language.Ast.{Instruction, Chunk}
use satis.Language.Validate.{
  Kinds, check_instruction, Verdict, valid, no_chunk_id, no_intent_uid, invalid, check_from,
  validate, is_set, or_empty,
}

-- The kinds behind a list of instructions, all of which the checks let through.
pub data Passes : List Instruction → Kinds → Kinds → Type 0 where
  stop : {kinds : Kinds} → Passes [] kinds kinds
  next :
      {stmt : Instruction}
      → {stmts : List Instruction} → {kinds : Kinds} → {between : Kinds} → {last : Kinds}
      → check_instruction stmt kinds ≡ some between
      → Passes stmts between last
      → Passes (stmt ∷ stmts) kinds last

-- A number is that of the first instruction that does not pass, where the first has the number n.
pub record IsFirstFault (n : ℕ) (stmts : List Instruction) (kinds : Kinds) (k : ℕ) : Type 0 where
  pub before : List Instruction
  pub fault : Instruction
  pub behind : List Instruction
  pub last : Kinds
  pub parts : stmts ≡ before ++ fault ∷ behind
  pub passes : Passes before kinds last
  pub fails : check_instruction fault last ≡ none
  pub number : k ≡ n + length before

-- What a verdict on the instructions from the n-th on says.
abbrev pub Reports : ℕ → List Instruction → Kinds → Verdict → Type 0
Reports n stmts kinds valid = (last : Kinds) × Passes stmts kinds last
Reports n stmts kinds no_chunk_id = ⊥
Reports n stmts kinds no_intent_uid = ⊥
Reports n stmts kinds (invalid k) = IsFirstFault n stmts kinds k

Reports-next :
    (n : ℕ) (stmt : Instruction) (stmts : List Instruction) (kinds between : Kinds)
    → check_instruction stmt kinds ≡ some between
    → (v : Verdict) → Reports (suc n) stmts between v
    → Reports n (stmt ∷ stmts) kinds v
Reports-next n stmt stmts kinds between e valid (last, p) = (last, next e p)
Reports-next n stmt stmts kinds between e no_chunk_id h = h
Reports-next n stmt stmts kinds between e no_intent_uid h = h
Reports-next n stmt stmts kinds between e (invalid k) h = record {
  before = stmt ∷ h.before;
  fault = h.fault;
  behind = h.behind;
  last = h.last;
  parts = ap (λ xs. stmt ∷ xs) h.parts;
  passes = next e h.passes;
  fails = h.fails;
  number = omega (arith, h.number);
}

-- The verdict on a list, from what the checks say of its first instruction.
abbrev verdict_of : ℕ → List Instruction → Option Kinds → Verdict
verdict_of n stmts none = invalid n
verdict_of n stmts (some between) = check_from (suc n) stmts between

report_of :
    (n : ℕ) (stmt : Instruction) (stmts : List Instruction) (kinds : Kinds)
    → ((between : Kinds) → Reports (suc n) stmts between (check_from (suc n) stmts between))
    → (o : Option Kinds) → check_instruction stmt kinds ≡ o
    → Reports n (stmt ∷ stmts) kinds (verdict_of n stmts o)
report_of n stmt stmts kinds rest none e = record {
  before = [];
  fault = stmt;
  behind = stmts;
  last = kinds;
  parts = refl;
  passes = stop;
  fails = e;
  number = omega arith;
}
report_of n stmt stmts kinds rest (some between) e =
    Reports-next n stmt stmts kinds between e (check_from (suc n) stmts between) (rest between)

check_from_step :
    (n : ℕ) (stmt : Instruction) (stmts : List Instruction) (kinds : Kinds) (o : Option Kinds)
    → check_instruction stmt kinds ≡ o
    → check_from n (stmt ∷ stmts) kinds ≡ verdict_of n stmts o
unfolding check_from
check_from_step n stmt stmts kinds none e = rw (e, check_from) refl
check_from_step n stmt stmts kinds (some between) e = rw (e, check_from) refl

check_from-Reports :
    (n : ℕ) (stmts : List Instruction) (kinds : Kinds)
    → Reports n stmts kinds (check_from n stmts kinds)
unfolding check_from
check_from-Reports n [] kinds = (kinds, stop)
check_from-Reports n (stmt ∷ stmts) kinds =
    subst (Reports n (stmt ∷ stmts) kinds)
      (sym (check_from_step n stmt stmts kinds (check_instruction stmt kinds) refl))
      (report_of n stmt stmts kinds (check_from-Reports (suc n) stmts)
        (check_instruction stmt kinds) refl)

-- What the verdict on a chunk says.
abbrev pub Explains : Chunk → Verdict → Type 0
Explains chunk valid =
    (is_set (or_empty (lookup (bytes "chunk_id") chunk.meta)) ≡ true)
    × (is_set (or_empty (lookup (bytes "intent_uid") chunk.meta)) ≡ true)
    × Reports 1 chunk.instructions [] valid
Explains chunk no_chunk_id = is_set (or_empty (lookup (bytes "chunk_id") chunk.meta)) ≡ false
Explains chunk no_intent_uid = is_set (or_empty (lookup (bytes "intent_uid") chunk.meta)) ≡ false
Explains chunk (invalid k) = IsFirstFault 1 chunk.instructions [] k

explained :
    (chunk : Chunk)
    → is_set (or_empty (lookup (bytes "chunk_id") chunk.meta)) ≡ true
    → is_set (or_empty (lookup (bytes "intent_uid") chunk.meta)) ≡ true
    → (v : Verdict) → Reports 1 chunk.instructions [] v
    → Explains chunk v
explained chunk h k valid r = (h, k, r)
explained chunk h k (invalid n) r = r
explained chunk h k no_chunk_id r = absurd r
explained chunk h k no_intent_uid r = absurd r

-- Validate, from what its two tests and its loop give.
abbrev verdict_by : Bool → Bool → Verdict → Verdict
verdict_by has_id has_uid checked =
    if not has_id then no_chunk_id else if not has_uid then no_intent_uid else checked

explained_by :
    (chunk : Chunk) (has_id has_uid : Bool)
    → is_set (or_empty (lookup (bytes "chunk_id") chunk.meta)) ≡ has_id
    → is_set (or_empty (lookup (bytes "intent_uid") chunk.meta)) ≡ has_uid
    → Explains chunk (verdict_by has_id has_uid (check_from 1 chunk.instructions []))
explained_by chunk false has_uid h k = h
explained_by chunk true false h k = k
explained_by chunk true true h k =
    explained chunk h k (check_from 1 chunk.instructions [])
      (check_from-Reports 1 chunk.instructions [])

-- Validate lets a chunk through only if it has both identifiers and each instruction passes its checks
-- with the kinds that the instructions before it leave; an error on an instruction has the number,
-- counted from 1, of the first that does not pass; and an error on an identifier means that it is absent or
-- empty.
pub validate-Explains : (chunk : Chunk) → Explains chunk (validate chunk)
unfolding validate
validate-Explains chunk =
    explained_by chunk (is_set (or_empty (lookup (bytes "chunk_id") chunk.meta)))
      (is_set (or_empty (lookup (bytes "intent_uid") chunk.meta))) refl refl
