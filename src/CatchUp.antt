-- ===== src/CatchUp.antt =====
-- classifier/catch_up.py: storing the sessions that were kept while the database was away.
-- A file is a list of lines, if it exists; writing it does not fail. What each call of the
-- repository and of `classify_and_store` brings stands in a script, one outcome for each in order;
-- after its end all calls succeed.
pub mod Kept
pub mod Import
pub mod Counts
mod Tests
use echidra_oss.Base.{
  length, map, ◌+◌, ℕ, zero, suc, ◌-◌, String, List, [], ◌∷◌, ◌++◌, Bool, true, false, not, ◌&&◌,
  ◌||◌, Option, none, some, if◌then◌else◌, str_eq, any, keep, nonempty, is_some, ◌==◌,
}

-- A line as it is read: a session by its id, a line that is no valid record, a blank line.
pub data Entry : Type 0 where
  session : String → Entry
  invalid blank : Entry

-- A line that was written, up to its line feed. The text of a session may have characters at which
-- `splitlines` splits too, such as U+0085 and U+2028, which its JSON has as they are; the number is
-- that of the pieces that are not blank, of which none is a valid record.
pub data Line : Type 0 where
  whole : Entry → Line
  torn : String → ℕ → Line

abbrev pub pieces : ℕ → List Entry → List Entry
pieces zero lines = lines
pieces (suc n) lines = invalid ∷ pieces n lines

-- `splitlines` of the text of a file
unfoldable pub split_entries : List Line → List Entry
split_entries [] = []
split_entries (whole entry ∷ lines) = entry ∷ split_entries lines
split_entries (torn id n ∷ lines) = pieces n (split_entries lines)

-- What a call brings: it works; the session was stored already; the database is away, is busy, or
-- another error is raised.
pub data Outcome : Type 0 where
  works duplicate unavailable busy fails : Outcome

-- The two files.
pub record Files : Type 0 where
  pub pending : Option (List Line)
  pub working : Option (List Line)

-- The ids in the database, those that this run has stored, and those that it gave up.
pub record Progress : Type 0 where
  pub database : List String
  pub stored : List String
  pub skipped : List String

abbrev pub one_of_ids : List String → String → Bool
one_of_ids ids id = any (str_eq id) ids

-- `_has_content`
abbrev pub has_content : Option (List Line) → Bool
has_content none = false
has_content (some lines) = nonempty lines

abbrev pub is_written : Entry → Bool
is_written blank = false
is_written _ = true

-- Whether a line of a file counts; a file that is iterated is split at line feeds only.
abbrev pub is_counted : Line → Bool
is_counted (whole entry) = is_written entry
is_counted (torn id n) = true

abbrev pub lines_of : Option (List Line) → List Line
lines_of none = []
lines_of (some lines) = lines

-- `count_pending_sessions`
unfoldable pub count_pending_sessions : Files → ℕ
count_pending_sessions files =
    length (keep is_counted (lines_of files.pending))
    + length (keep is_counted (lines_of files.working))

-- `_append_lines`
unfoldable pub append_lines : Option (List Line) → List Line → Option (List Line)
append_lines file [] = file
append_lines file (line ∷ lines) = some (lines_of file ++ line ∷ lines)

-- `keep_pending_session` and `keep_pending_sessions`
unfoldable pub keep_pending_sessions : List Line → Files → Files
keep_pending_sessions sessions files = record files {
  pending = append_lines files.pending sessions;
}

abbrev pub next : List Outcome → Outcome × List Outcome
next [] = (works, [])
next (o ∷ script) = (o, script)

-- A run within a batch: the progress, the script that is left, and whether an outage was raised.
pub record Run : Type 0 where
  pub progress : Progress
  pub script : List Outcome
  pub raised : Bool

-- One session by the outcome of storing it.
abbrev pub store : String → Outcome → Progress → Progress × Bool
store id works p = (record p { database = id ∷ p.database; stored = p.stored ++ id ∷ [] }, false)
store id duplicate p = (record p { database = id ∷ p.database }, false)
store id unavailable p = (p, true)
store id busy p = (record p { skipped = p.skipped ++ id ∷ [] }, false)
store id fails p = (record p { skipped = p.skipped ++ id ∷ [] }, false)

-- The loop over the sessions of a batch; `already` are the ids stored when the batch began.
unfoldable pub store_batch : List String → List Entry → Run → Run
store_batch already [] run = run
store_batch already (session id ∷ batch) run =
    let drawn = next run.script in
    let result = store id drawn.0 run.progress in
    let passed = store_batch already batch run in
    let continued =
      store_batch already batch
        (record { progress = result.0; script = drawn.1; raised = false }) in
    if one_of_ids already id
    then passed
    else if result.1
    then record { progress = result.0; script = drawn.1; raised = true }
    else continued
store_batch already (_ ∷ batch) run = store_batch already batch run

-- `lines[position:position + _BATCH_SIZE]` for each position: batches of 500 lines; `room` is what
-- is left in the batch begun.
abbrev pub batch_size : ℕ
batch_size = 500

abbrev pub put_first : Entry → List (List Entry) → List (List Entry)
put_first line [] = (line ∷ []) ∷ []
put_first line (batch ∷ batches) = (line ∷ batch) ∷ batches

unfoldable pub batches_from : ℕ → List Entry → List (List Entry)
batches_from room [] = []
batches_from room (line ∷ []) = (line ∷ []) ∷ []
batches_from room (line ∷ next_line ∷ lines) =
    let filled = batches_from (batch_size - 1) (next_line ∷ lines) in
    let more = batches_from (room - 1) (next_line ∷ lines) in
    if room == 0 then (line ∷ []) ∷ filled else put_first line more

unfoldable pub batches_of : List Entry → List (List Entry)
batches_of lines = batches_from (batch_size - 1) lines

abbrev pub joined : List (List Entry) → List Entry
joined [] = []
joined (batch ∷ batches) = batch ++ joined batches

abbrev pub is_error : Outcome → Bool
is_error works = false
is_error _ = true

-- The loop over the batches: the progress, and the lines to put back.
unfoldable pub store_batches : List (List Entry) → List Outcome → Progress → Progress × List Entry
store_batches [] script p = (p, [])
store_batches (batch ∷ batches) script p =
    let asked = next script in
    let ran =
      store_batch p.database batch (record { progress = p; script = asked.1; raised = false }) in
    let rest = store_batches batches ran.script ran.progress in
    if is_error asked.0
    then (p, batch ++ joined batches)
    else if ran.raised
    then (ran.progress, batch ++ joined batches)
    else rest

abbrev pub take_over : Files → Files
take_over files =
    if is_some files.working then files else record { pending = none; working = files.pending }

-- The part of the run after the pending file is taken over.
abbrev pub store_lines : List Outcome → Files → Progress → Files × Progress
store_lines script files p =
    let result =
      store_batches (batches_of (keep is_written (split_entries (lines_of files.working)))) script
        p in
    (record { pending = append_lines files.pending (map whole result.1); working = none }, result.0)

-- `catch_up_pending_sessions`; `reachable` says whether the database answers the ping.
unfoldable pub catch_up_pending_sessions : Bool → List Outcome → Files → Progress → Files × Progress
catch_up_pending_sessions reachable script files p =
    if (has_content files.pending || has_content files.working) && reachable
    then store_lines script (take_over files) p
    else (files, p)
