-- ===== src/CatchUp/Counts.antt =====
-- The counts of an import account for every line.
use echidra_oss.Base.{
  if◌then◌else◌, ℕ, ◌+◌, String, List, [], ◌∷◌, ◌++◌, true, false, ◌≡◌, ◌≢◌, sym, ◌∙◌, refl, arith,
  length, length-append, ◌==◌, Bool-cases, inl, inr, suc, Bool,
}
use echidra_oss.CatchUp.{
  Entry, session, invalid, blank, Outcome, works, duplicate, unavailable, busy, fails, one_of_ids,
  next, is_error, batch_size,
}
use echidra_oss.CatchUp.Import.{
  no_result, ImportRun, checked, count_outcome, count_already, import_sessions, import_batch,
  import_from, import_session_log,
}

abbrev pub sessions_in : List Entry → ℕ
sessions_in [] = 0
sessions_in (session id ∷ lines) = 1 + sessions_in lines
sessions_in (invalid ∷ lines) = sessions_in lines
sessions_in (blank ∷ lines) = sessions_in lines

abbrev pub invalid_in : List Entry → ℕ
invalid_in [] = 0
invalid_in (session id ∷ lines) = invalid_in lines
invalid_in (invalid ∷ lines) = 1 + invalid_in lines
invalid_in (blank ∷ lines) = invalid_in lines

-- A run that ended without an exception has checked `n` and found `k` lines invalid, since another.
abbrev Adds : ℕ → ℕ → ImportRun → ImportRun → Type 0
Adds n k before after =
    after.raised ≡ false
    → (checked after.result ≡ checked before.result + n)
      × (after.result.invalid_lines ≡ before.result.invalid_lines + k)

true≢false : true ≢ false
true≢false e = cc

count_outcome-Adds :
    (id : String) (o : Outcome) (run : ImportRun)
    → run.raised ≡ false
    → Adds 1 0 run (count_outcome id o run)
unfolding checked
count_outcome-Adds id works run r = λ k. (omega arith, omega arith)
count_outcome-Adds id duplicate run r = λ k. (omega arith, omega arith)
count_outcome-Adds id unavailable run r = λ k. absurd (true≢false k)
count_outcome-Adds id busy run r = λ k. (omega arith, omega arith)
count_outcome-Adds id fails run r = λ k. (omega arith, omega arith)

-- A run that stops where an exception was raised.
Adds-unless :
    (n k : ℕ) (a x c : ImportRun)
    → (x.raised ≡ false → Adds n k a c)
    → Adds n k a (if x.raised then x else c)
Adds-unless n k a x c f = by_flag x.raised refl
  where
    by_flag : (b : Bool) → x.raised ≡ b → Adds n k a (if b then x else c)
    by_flag true e = λ q. absurd (true≢false (sym e ∙ q))
    by_flag false e = f e

import_sessions-Adds :
    (already batch : List String) (run : ImportRun)
    → run.raised ≡ false
    → Adds (length batch) 0 run (import_sessions already batch run)
unfolding import_sessions checked
import_sessions-Adds already [] run r = λ k. (omega arith, omega arith)
import_sessions-Adds already (id ∷ batch) run r =
    let drawn = next run.script in
    let start : ImportRun = record run { script = drawn.1 } in
    let tried = count_outcome id drawn.0 start in
    elim (Bool-cases (one_of_ids already id)) [
      | inl e ↦ rw e (λ k.
          let ih = import_sessions-Adds already batch (count_already run) r k in
          (omega (arith, ih.0), omega (arith, ih.1)))
      | inr e ↦ rw e (
          Adds-unless (suc (length batch)) 0 run tried (import_sessions already batch tried) (λ d k.
            let one = count_outcome-Adds id drawn.0 start r d in
            let ih = import_sessions-Adds already batch tried d k in
            (omega (arith, one.0, ih.0), omega (arith, one.1, ih.1))))
    ]

import_batch-Adds :
    (batch : List String) (run : ImportRun)
    → run.raised ≡ false
    → Adds (length batch) 0 run (import_batch batch run)
unfolding import_batch
import_batch-Adds batch run r = elim (Bool-cases (is_error (next run.script).0)) [
  | inl e ↦ rw e (λ k. absurd (true≢false k))
  | inr e ↦
      rw e (import_sessions-Adds run.database batch (record run { script = (next run.script).1 }) r)
]

import_from-Adds :
    (lines : List Entry) (batch : List String) (run : ImportRun)
    → run.raised ≡ false
    → Adds (length batch + sessions_in lines) (invalid_in lines) run (import_from lines batch run)
unfolding import_from checked
import_from-Adds [] [] run r = λ k. (omega arith, omega arith)
import_from-Adds [] (id ∷ batch) run r = λ k.
    let done = import_batch-Adds (id ∷ batch) run r k in
    (omega (arith, done.0), omega (arith, done.1))
import_from-Adds (blank ∷ lines) batch run r = import_from-Adds lines batch run r
import_from-Adds (invalid ∷ lines) batch run r = λ k.
    let ih =
      import_from-Adds lines batch
        (record run { result = record run.result { invalid_lines = run.result.invalid_lines + 1 } })
        r k in
    (omega (arith, ih.0), omega (arith, ih.1))
import_from-Adds (session id ∷ lines) batch run r =
    let full = batch ++ id ∷ [] in
    let flushed = import_batch full run in
    elim (Bool-cases (length full == batch_size)) [
      | inl e ↦ rw e (
          Adds-unless (length batch + (1 + sessions_in lines)) (invalid_in lines) run flushed
            (import_from lines [] flushed)
            (λ d k.
              let done = import_batch-Adds full run r d in
              let ih = import_from-Adds lines [] flushed d k in
              (
                omega (arith, done.0, ih.0, length-append batch (id ∷ [])),
                omega (arith, done.1, ih.1),
              )))
      | inr e ↦ rw e (λ k.
          let ih = import_from-Adds lines full run r k in
          (omega (arith, ih.0, length-append batch (id ∷ [])), omega (arith, ih.1)))
    ]

-- An import that ends without an exception has counted every session of the log once, as stored,
-- stored already or failed, and every line that is no valid record once.
pub import_session_log_counts :
    (lines : List Entry) (database : List String) (script : List Outcome)
    → (import_session_log lines database script).raised ≡ false
    → (checked (import_session_log lines database script).result ≡ sessions_in lines)
      × ((import_session_log lines database script).result.invalid_lines ≡ invalid_in lines)
unfolding import_session_log checked
import_session_log_counts lines database script h =
    let all =
      import_from-Adds lines []
        (record { result = no_result; database = database; script = script; raised = false }) refl
        h in
    (omega (arith, all.0), omega (arith, all.1))
