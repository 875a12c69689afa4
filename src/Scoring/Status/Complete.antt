-- ===== src/Scoring/Status/Complete.antt =====
-- When a classification is complete.
use echidra_oss.Base.{◌≤◌, ◌<◌, List, [], ◌∷◌, ◌≡◌, ◌↔◌, arith, Option, none, some, length}
use echidra_oss.Features.{SessionFeatures}
use echidra_oss.Rules.{RuleMatch}
use echidra_oss.Scoring.Status.{complete, insufficient_data, classification_status}
use echidra_oss.Scoring.Stage.{seen}

-- The status is `complete` exactly when at least two commands were observed and a rule matched,
-- `insufficient_data` exactly when fewer than two commands (or no features at all) and no rule
-- matched, and a reason is given exactly when it is not complete.
pub classification_status_iff :
    (features : Option SessionFeatures) (ms : List RuleMatch)
    → let (status, reason) = classification_status features ms in
      let commands = seen SessionFeatures.command_count features in
      ((status ≡ complete) ↔ ((2 ≤ commands) × (0 < length ms)))
      × ((status ≡ insufficient_data) ↔ ((commands < 2) × (length ms ≡ 0)))
      × ((reason ≡ none) ↔ (status ≡ complete))
unfolding classification_status
classification_status_iff none [] = ground arith
classification_status_iff none (m ∷ ms) = ground arith
classification_status_iff (some features) [] = ground arith
classification_status_iff (some features) (m ∷ ms) = ground arith
