-- ===== src/Scoring/Status.antt =====
-- classifier/scoring/session.py: `_classification_status`.
pub mod Complete
use echidra_oss.Base.{ℕ, String, List, Option, none, some, ◌==◌, if◌then◌else◌, nonempty}
use echidra_oss.Rules.{RuleMatch}
use echidra_oss.Features.{SessionFeatures}

-- `ClassificationStatus`
pub data ClassificationStatus : Type 0 where
  complete partial insufficient_data : ClassificationStatus

-- The last part of the function, for a session whose commands were counted.
abbrev pub counted_status : ℕ → List RuleMatch → ClassificationStatus × Option String
counted_status command_count matched_rules =
    if command_count == 0
    then (if nonempty matched_rules
        then (
          partial,
          some
              "no commands were observed; matching evidence alone isn't enough signal to classify with full confidence",
        )
        else (
          insufficient_data,
          some
              "no commands were observed during the session, so no reliable command or timing evidence is available",
        ))
    else if command_count == 1
    then (if nonempty matched_rules
        then (
          partial,
          some
              "only one command was observed; a single matching rule isn't enough signal to classify with full confidence",
        )
        else (
          insufficient_data,
          some
              "fewer than two commands were observed during the session, so no reliable command or timing evidence is available",
        ))
    else if nonempty matched_rules
    then (complete, none)
    else (
      partial,
      some
          "commands were observed but none matched a classification rule confidently enough to assign an actor label",
    )

-- `_classification_status`
unfoldable pub classification_status :
    Option SessionFeatures → List RuleMatch → ClassificationStatus × Option String
classification_status none matched_rules =
    if nonempty matched_rules
    then (
      partial,
      some
          "session features were not supplied, so classification completeness cannot be established",
    )
    else (insufficient_data, some "session features were not supplied")
classification_status (some features) matched_rules =
    counted_status features.command_count matched_rules
