-- ===== src/Features/Timing.antt =====
-- classifier/features/session.py: the pace of a session, as exact quotients of microseconds.
pub mod Nearest
use echidra_oss.Base.{
  ℕ, ◌-◌, ◌*◌, List, [], ◌∷◌, Option, none, some, if◌then◌else◌, leb, ◌==◌, length, sum_of,
}
use echidra_oss.Base.Ratios.{Ratio, whole}
use echidra_oss.Base.Round.{round_half_even}
use echidra_oss.Session.{CommandEvent}

abbrev pub microseconds : ℕ
microseconds = 1000000

-- Seconds of a number of microseconds.
abbrev pub seconds : ℕ → Ratio
seconds time = record { numerator = time; denominator = microseconds }

-- The times between one command and the next; they do not decrease in an accepted record.
unfoldable pub times_between : List CommandEvent → List ℕ
times_between [] = []
times_between (previous ∷ []) = []
times_between (previous ∷ current ∷ commands) =
    (current.timestamp - previous.timestamp) ∷ times_between (current ∷ commands)

-- `sum(intervals) / len(intervals) if intervals else None`
abbrev pub average_of : List ℕ → Option Ratio
average_of [] = none
average_of (time ∷ times) = some (record {
  numerator = sum_of (λ t. t) (time ∷ times);
  denominator = length (time ∷ times) * microseconds;
})

-- The score in hundredths: the average less half a second, as a part of the 4.5 seconds between
-- the speed of a bot and the pace of a human.
unfoldable pub score_hundredths : Ratio → ℕ
score_hundredths average =
    let above = 2 * average.numerator - average.denominator in
    let span = 9 * average.denominator in
    if leb span above then 100 else round_half_even (100 * above) span

-- `_human_timing_score`
unfoldable pub human_timing_score : Option Ratio → Option Ratio
human_timing_score none = none
human_timing_score (some average) =
    some (record { numerator = score_hundredths average; denominator = 100 })

-- `_commands_per_minute`, of a duration in microseconds.
unfoldable pub commands_per_minute : ℕ → ℕ → Ratio
commands_per_minute command_count duration =
    if duration == 0
    then whole (command_count * 60)
    else record { numerator = command_count * 60 * microseconds; denominator = duration }
