-- ===== src/SessionLog/Tests.antt =====
-- The theorems on the messages about failed writes at a concrete run.
use echidra_oss.Base.{◌+◌, List, [], ◌∷◌, false, none, some, ◌≡◌, refl}
use echidra_oss.SessionLog.{no_failures, first, report_log_failure}
use echidra_oss.SessionLog.Failures.{Ending, failed_in, told_along, after, failures_accounted}

abbrev full_disk : List Ending
full_disk =
    record { time = 1; valid = none; written = false }
    ∷ record { time = 9; valid = none; written = false }
    ∷ record { time = 40; valid = none; written = false }
    ∷ []

failures_accounted_example :
    failed_in full_disk ≡ told_along full_disk no_failures + (after full_disk no_failures).count
failures_accounted_example = failures_accounted full_disk

first_told : (report_log_failure 1 no_failures).0 ≡ some first
unfolding report_log_failure
first_told = refl
