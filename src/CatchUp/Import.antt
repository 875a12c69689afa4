-- ===== src/CatchUp/Import.antt =====
-- classifier/catch_up.py: `echidra import`, which stores every session of a log that is not in the
-- database yet. The file of the log is iterated, which splits it at line feeds only, so that each
-- record is one line.
use echidra_oss.Base.{
  ℕ, ◌+◌, String, List, [], ◌∷◌, ◌++◌, Bool, true, false, if◌then◌else◌, length, ◌==◌,
}
use echidra_oss.CatchUp.{
  Entry, session, invalid, blank, Outcome, works, duplicate, unavailable, busy, fails, one_of_ids,
  next, is_error, batch_size,
}

-- `ImportResult`
pub record ImportResult : Type 0 where
  pub stored : ℕ
  pub already_stored : ℕ
  pub invalid_lines : ℕ
  pub failed : ℕ

abbrev pub no_result : ImportResult
no_result = record { stored = 0; already_stored = 0; invalid_lines = 0; failed = 0 }

-- `ImportResult.checked`
unfoldable pub checked : ImportResult → ℕ
checked r = r.stored + r.already_stored + r.failed

-- A run: the counts, the ids in the database, the script that is left, and whether an outage or a
-- failed query was raised, which ends the import.
pub record ImportRun : Type 0 where
  pub result : ImportResult
  pub database : List String
  pub script : List Outcome
  pub raised : Bool

-- One session by the outcome of storing it.
abbrev pub count_outcome : String → Outcome → ImportRun → ImportRun
count_outcome id works run = record run {
  result = record run.result { stored = run.result.stored + 1 };
  database = id ∷ run.database;
}
count_outcome id duplicate run = record run {
  result = record run.result { already_stored = run.result.already_stored + 1 };
}
count_outcome id unavailable run = record run { raised = true }
count_outcome id busy run = record run {
  result = record run.result { failed = run.result.failed + 1 };
}
count_outcome id fails run = record run {
  result = record run.result { failed = run.result.failed + 1 };
}

abbrev pub count_already : ImportRun → ImportRun
count_already run = record run {
  result = record run.result { already_stored = run.result.already_stored + 1 };
}

-- The loop of `_import_batch`.
unfoldable pub import_sessions : List String → List String → ImportRun → ImportRun
import_sessions already [] run = run
import_sessions already (id ∷ batch) run =
    let drawn = next run.script in
    let tried = count_outcome id drawn.0 (record run { script = drawn.1 }) in
    let passed = import_sessions already batch (count_already run) in
    let continued = import_sessions already batch tried in
    if one_of_ids already id then passed else if tried.raised then tried else continued

-- `_import_batch`
unfoldable pub import_batch : List String → ImportRun → ImportRun
import_batch batch run =
    let asked = next run.script in
    if is_error asked.0
    then record run { script = asked.1; raised = true }
    else import_sessions run.database batch (record run { script = asked.1 })

abbrev pub import_rest : List String → ImportRun → ImportRun
import_rest [] run = run
import_rest (id ∷ batch) run = import_batch (id ∷ batch) run

-- The loop of `import_session_log` over the lines, with the batch begun.
unfoldable pub import_from : List Entry → List String → ImportRun → ImportRun
import_from [] batch run = import_rest batch run
import_from (blank ∷ lines) batch run = import_from lines batch run
import_from (invalid ∷ lines) batch run =
    import_from lines batch
      (record run { result = record run.result { invalid_lines = run.result.invalid_lines + 1 } })
import_from (session id ∷ lines) batch run =
    let full = batch ++ id ∷ [] in
    let flushed = import_batch full run in
    let rest = import_from lines [] flushed in
    let later = import_from lines full run in
    if length full == batch_size then (if flushed.raised then flushed else rest) else later

-- `import_session_log`, from the answer to the ping on.
unfoldable pub import_session_log : List Entry → List String → List Outcome → ImportRun
import_session_log lines database script =
    import_from lines []
      (record { result = no_result; database = database; script = script; raised = false })
