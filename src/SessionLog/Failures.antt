-- ===== src/SessionLog/Failures.antt =====
-- No failed write goes uncounted, and no two messages come within the interval.
use echidra_oss.Base.{
  ℕ, ◌+◌, ◌-◌, ◌<◌, List, [], ◌∷◌, Bool, true, false, Option, none, some, ◌≡◌, refl, arith, leb,
  Bool-cases, inl, inr,
}
use echidra_oss.Session.{SessionRecord}
use echidra_oss.SessionLog.{
  FailureCount, no_failures, Message, first, counted, log_failure_interval, report_after,
  report_log_failure, Finished, finalize_and_schedule,
}

-- The failures that a message tells of.
abbrev pub told : Option Message → ℕ
told none = 0
told (some first) = 1
told (some (counted n)) = n

-- Nothing is counted before the first message.
abbrev pub IsFresh : FailureCount → Type 0
IsFresh f = f.last_logged ≡ none → f.count ≡ 0

-- A session that is finished: the time, its record if it is valid, and whether its line was
-- written.
pub record Ending : Type 0 where
  pub time : ℕ
  pub valid : Option SessionRecord
  pub written : Bool

abbrev pub end_session : Ending → FailureCount → Finished
end_session e f = finalize_and_schedule e.time e.valid e.written f

-- One for a session whose line did not reach the log.
abbrev pub failed : Option SessionRecord → Bool → ℕ
failed (some valid) true = 0
failed valid written = 1

abbrev pub failed_write : Ending → ℕ
failed_write e = failed e.valid e.written

abbrev pub after : List Ending → FailureCount → FailureCount
after [] f = f
after (e ∷ es) f = after es (end_session e f).failures

-- The failures told of along a run, and those that there were.
abbrev pub told_along : List Ending → FailureCount → ℕ
told_along [] f = 0
told_along (e ∷ es) f = told (end_session e f).message + told_along es (end_session e f).failures

abbrev pub failed_in : List Ending → ℕ
failed_in [] = 0
failed_in (e ∷ es) = failed_write e + failed_in es

-- What was counted before, and is counted now, is told or still counted.
abbrev Accounts : ℕ → FailureCount → Option Message → FailureCount → Type 0
Accounts n before message now = (before.count + n ≡ told message + now.count) × IsFresh now

report_after_counts :
    (now count : ℕ) (last : Option ℕ)
    → (last ≡ none → count ≡ 0)
    → (count + 1
        ≡ told (report_after now (count + 1) last).0 + (report_after now (count + 1) last).1.count)
      × IsFresh (report_after now (count + 1) last).1
report_after_counts now count none h = (omega (arith, h refl), λ e. cc)
report_after_counts now count (some last) h =
    elim (Bool-cases (leb log_failure_interval (now - last))) [
      | inl e ↦ rw e (omega arith, λ d. cc)
      | inr e ↦ rw e (omega arith, λ d. cc)
    ]

end_session_counts :
    (now : ℕ) (valid : Option SessionRecord) (written : Bool) (f : FailureCount)
    → IsFresh f
    → Accounts
        (failed valid written)
        f
        (finalize_and_schedule now valid written f).message
        (finalize_and_schedule now valid written f).failures
unfolding finalize_and_schedule report_log_failure
end_session_counts now (some valid) true f h = (omega arith, h)
end_session_counts now (some valid) false f h = report_after_counts now f.count f.last_logged h
end_session_counts now none true f h = report_after_counts now f.count f.last_logged h
end_session_counts now none false f h = report_after_counts now f.count f.last_logged h

after_accounts :
    (es : List Ending) (f : FailureCount)
    → IsFresh f
    → f.count + failed_in es ≡ told_along es f + (after es f).count
after_accounts [] f h = omega arith
after_accounts (e ∷ es) f h =
    let one = end_session_counts e.time e.valid e.written f h in
    omega (arith, one.0, after_accounts es (end_session e f).failures one.1)

-- After any sequence of sessions, the failed writes are exactly those that messages have told of
-- and those still counted for the next message.
pub failures_accounted :
    (es : List Ending) → failed_in es ≡ told_along es no_failures + (after es no_failures).count
failures_accounted es = omega (arith, after_accounts es no_failures (λ _. refl))

-- After a message, a failed write within the interval of 30 seconds gives no message.
report_log_failure_spacing :
    (now later : ℕ) (f : FailureCount) (m : Message)
    → (report_log_failure now f).0 ≡ some m
    → later < now + 30
    → (report_log_failure later (report_log_failure now f).1).0 ≡ none
unfolding report_log_failure
report_log_failure_spacing now later f m h k = ground arith
