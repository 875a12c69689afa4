-- ===== src/CatchUp/Tests.antt =====
-- The theorems on the catch-up and the import at concrete runs.
use echidra_oss.Base.{List, [], ◌∷◌, ◌||◌, true, false, none, some, ◌≡◌, refl}
use echidra_oss.CatchUp.{
  Entry, session, invalid, blank, Outcome, works, unavailable, fails, Files, Progress,
  catch_up_pending_sessions, whole, torn, split_entries, batches_of, batches_from, store_batches,
  store_batch, append_lines,
}
use echidra_oss.CatchUp.Kept.{waits, is_settled, catch_up_keeps}
use echidra_oss.CatchUp.Import.{
  checked, import_session_log, import_from, import_batch, import_sessions,
}
use echidra_oss.CatchUp.Counts.{sessions_in, invalid_in, import_session_log_counts}

abbrev waiting : Files
waiting = record {
  pending = some (whole (session "a") ∷ torn "u" 2 ∷ whole (session "b") ∷ []);
  working = none;
}

abbrev nothing_stored : Progress
nothing_stored = record { database = []; stored = []; skipped = [] }

-- The first session is stored, then the database goes away again.
abbrev brief_return : List Outcome
brief_return = works ∷ works ∷ unavailable ∷ []

catch_up_keeps_example :
    (waits "b" (catch_up_pending_sessions true brief_return waiting nothing_stored).0
      || is_settled "b" (catch_up_pending_sessions true brief_return waiting nothing_stored).1)
    ≡ true
unfolding split_entries
catch_up_keeps_example = catch_up_keeps "b" true brief_return waiting nothing_stored refl

-- A record that `splitlines` tears is lost: it is neither stored nor put back.
torn_lost :
    catch_up_pending_sessions true []
      (record { pending = some (torn "u" 2 ∷ []); working = none })
      nothing_stored
    ≡ (record { pending = none; working = none }, nothing_stored)
unfolding catch_up_pending_sessions split_entries batches_of batches_from store_batches store_batch
    append_lines
torn_lost = refl

abbrev log_lines : List Entry
log_lines = session "a" ∷ blank ∷ invalid ∷ session "b" ∷ session "c" ∷ []

abbrev one_failure : List Outcome
one_failure = works ∷ works ∷ fails ∷ []

import_ends : (import_session_log log_lines ("a" ∷ []) one_failure).raised ≡ false
unfolding import_session_log import_from import_batch import_sessions
import_ends = refl

import_session_log_counts_example :
    (checked (import_session_log log_lines ("a" ∷ []) one_failure).result ≡ sessions_in log_lines)
    × ((import_session_log log_lines ("a" ∷ []) one_failure).result.invalid_lines
        ≡ invalid_in log_lines)
import_session_log_counts_example =
    import_session_log_counts log_lines ("a" ∷ []) one_failure import_ends
