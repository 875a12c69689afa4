-- ===== src/SessionLog.antt =====
-- honeypot/logging/session_logger.py: what is done with a finished session, and the messages about
-- failed writes. Times are whole seconds of the monotonic clock.
pub mod Failures
mod Tests
use echidra_oss.Base.{
  ℕ, ◌+◌, ◌-◌, List, [], ◌∷◌, ◌++◌, Bool, true, false, Option, none, some, if◌then◌else◌, leb,
}
use echidra_oss.Session.{SessionRecord}

-- `_log_failure_count` and `_log_failure_last_logged`
pub record FailureCount : Type 0 where
  pub count : ℕ
  pub last_logged : Option ℕ

abbrev pub no_failures : FailureCount
no_failures = record { count = 0; last_logged = none }

-- A message about a failed write: the first with its traceback, a later one with a count.
pub data Message : Type 0 where
  first : Message
  counted : ℕ → Message

-- `_LOG_FAILURE_INTERVAL_SECONDS`
abbrev pub log_failure_interval : ℕ
log_failure_interval = 30

abbrev pub report_after : ℕ → ℕ → Option ℕ → Option Message × FailureCount
report_after now count none = (some first, record { count = 0; last_logged = some now })
report_after now count (some last) =
    if leb log_failure_interval (now - last)
    then (some (counted count), record { count = 0; last_logged = some now })
    else (none, record { count = count; last_logged = some last })

-- `_report_log_failure`
unfoldable pub report_log_failure : ℕ → FailureCount → Option Message × FailureCount
report_log_failure now f = report_after now (f.count + 1) f.last_logged

-- What happened: the message, if any, and the record that is queued for classification, if any.
pub record Finished : Type 0 where
  pub message : Option Message
  pub scheduled : Option SessionRecord
  pub failures : FailureCount

-- `finalize_and_schedule`: `valid` is the session's record if it passes validation, `written` says
-- whether the line could be written; an error of the queue is logged and swallowed.
unfoldable pub finalize_and_schedule : ℕ → Option SessionRecord → Bool → FailureCount → Finished
finalize_and_schedule now (some valid) true f = record {
  message = none;
  scheduled = some valid;
  failures = f;
}
finalize_and_schedule now valid written f =
    let reported = report_log_failure now f in
    record { message = reported.0; scheduled = valid; failures = reported.1 }
