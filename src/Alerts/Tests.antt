-- ===== src/Alerts/Tests.antt =====
-- Runs of the alert grouping, and each of its theorems at a concrete input.
use echidra_oss.Alerts.Once.{alert_decision_once}
use echidra_oss.Base.{
  ◌+◌, List, String, [], ◌∷◌, true, false, ◌≡◌, ◌≢◌, ◌↔◌, ◌⊎◌, refl, arith, none, some, leb,
  is_some, length,
}
use echidra_oss.Base.Dict.{lookup, insert, erase, string_eq}
use echidra_oss.Base.Text.{codes, is_space}
use echidra_oss.Rules.{brute_force_bot}
use echidra_oss.Scoring.Risk.{RiskLevel}
use echidra_oss.Alerts.{
  Alert, Key, key_eq, Grouping, no_grouping, risk_rank, group_key, pop_oldest, track, prune,
  decide_group, decide_tracked, alert_decision, send_follow_up, take_follow_up, dispatched,
  no_targets,
}
use echidra_oss.Alerts.Held.{
  IsValid, total_held, Event, decide, fire, run, along, counted, withheld, run_accounts, lost,
}
use echidra_oss.Alerts.Sessions.{IsTracked}
use echidra_oss.Alerts.Window.{alert_decision_window, alert_decision_critical}
use echidra_oss.Alerts.Targets.{
  index_of, risk_level_order, risk_meets_threshold, is_excluded_ip, AlertConfig, PersonaConfig,
  alert_targets, Outbox, dispatch_alerts, dispatch_email, dispatch_slack, record_alert_event,
}
use echidra_oss.Alerts.Routing.{risk_meets_threshold-rank, IsDue, alert_targets_iff}

grouping : Unit {0}
unfolding alert_decision decide_tracked decide_group prune track pop_oldest group_key risk_rank
    send_follow_up take_follow_up lookup insert erase
grouping = tt

abbrev alert_of : String → RiskLevel → Alert
alert_of session level = record {
  session_id = session;
  persona_id = "default";
  peer_ip = some "203.0.113.9";
  risk_level = level;
  mitre_tags = "T1110" ∷ [];
  actor_label = some brute_force_bot;
}

abbrev key : Key
key = record { persona = "default"; source = "203.0.113.9"; technique = "T1110" }

-- Three sessions of one source: the first alerts, two are held, and the timer counts them.
abbrev events : List Event
events =
    decide 3600 100 5 (alert_of "a" RiskLevel.medium)
    ∷ decide 3600 200 6 (alert_of "b" RiskLevel.medium)
    ∷ decide 3600 300 7 (alert_of "c" RiskLevel.low)
    ∷ fire dispatched 3700 key
    ∷ []

counts : along counted events no_grouping ≡ 2
unfolding grouping
counts = refl

-- A timer that finds nobody to alert gives up the count.
loses :
    along lost
      (decide 3600 100 5 (alert_of "a" RiskLevel.medium)
        ∷ decide 3600 200 6 (alert_of "b" RiskLevel.medium)
        ∷ fire no_targets 3700 key
        ∷ [])
      no_grouping
    ≡ 1
unfolding grouping
loses = refl

withheld_counts : along withheld events no_grouping ≡ 2
unfolding grouping
withheld_counts = refl

abbrev after_first : Grouping
after_first = (alert_decision 3600 100 5 (alert_of "a" RiskLevel.medium) no_grouping).1

nothing-IsTracked : IsTracked []
nothing-IsTracked = record { bounded = omega arith; keyed = tt }

excluded : is_excluded_ip (some (codes "10.0.0.1, 127.0.0.1")) (some (codes "127.0.0.1")) ≡ true
unfolding is_excluded_ip is_space
excluded = refl

run_accounts_example :
    IsValid (run events no_grouping)
    × (total_held (run events no_grouping)
          + (along counted events no_grouping + along lost events no_grouping)
        ≡ along withheld events no_grouping)
run_accounts_example = run_accounts events

-- Another session's alert comes in between, and is held back.
abbrev interlude : List Event
interlude = decide 3600 150 5 (alert_of "b" RiskLevel.medium) ∷ []

alert_decision_once_example :
    alert_decision 3600 200 6 (alert_of "a" RiskLevel.low) (run interlude after_first)
    ≡ (none, run interlude after_first)
unfolding grouping
alert_decision_once_example =
    alert_decision_once 3600 100 5 (alert_of "a" RiskLevel.medium) no_grouping interlude 3600 200 6
      (alert_of "a" RiskLevel.low) nothing-IsTracked refl (omega arith) refl (omega arith)

alert_decision_window_example :
    (alert_decision 3600 200 6 (alert_of "c" RiskLevel.medium) (run interlude after_first)).0 ≡ none
unfolding grouping
alert_decision_window_example =
    alert_decision_window 3600 100 5 (alert_of "a" RiskLevel.medium) no_grouping 0 interlude 200 6
      (alert_of "c" RiskLevel.medium) (omega arith) refl
      ((refl, omega arith, λ e. (omega arith, cc)), tt) refl (omega arith) (cc) (omega arith)

alert_decision_critical_example :
    is_some (alert_decision 3600 200 6 (alert_of "b" RiskLevel.critical) no_grouping).0 ≡ true
unfolding grouping
alert_decision_critical_example =
    alert_decision_critical 3600 200 6 (alert_of "b" RiskLevel.critical) no_grouping refl refl

abbrev config : AlertConfig
config = record {
  enabled = true;
  excluded_ips = some (codes "127.0.0.1");
  global_min_risk_level = "high";
}

abbrev persona : PersonaConfig
persona = record {
  alert_routing_level = "both";
  alert_min_risk_level = some "low";
  contact_email = some "ops@example.org";
  slack_webhook = some "https://hooks.example.org/x";
}

abbrev outbox : Outbox
outbox = record { emails = []; slacks = []; events = [] }

-- The mail server refuses, and the Slack message is still handed over; both are recorded.
dispatches :
    length (dispatch_alerts (λ _. some "refused") (λ _. none) (λ _. false) persona outbox).events
    ≡ 2
unfolding dispatch_alerts dispatch_email dispatch_slack record_alert_event
dispatches = refl

risk_meets_threshold-rank_example :
    (risk_meets_threshold "high" "medium"
      ≡ leb (risk_rank RiskLevel.medium) (risk_rank RiskLevel.high))
    × ((index_of "severe" risk_level_order ≢ none)
        ⊎ ((risk_meets_threshold "severe" "medium" ≡ false)
            × (risk_meets_threshold "high" "severe" ≡ false)))
risk_meets_threshold-rank_example =
    risk_meets_threshold-rank RiskLevel.high RiskLevel.medium "severe"

alert_targets_iff_example :
    (alert_targets "medium" (some (codes "203.0.113.9")) (some config) (some persona)
      ≡ some (config, persona))
    ↔ ((some config ≡ some config)
        × (some persona ≡ some persona)
        × IsDue "medium" (some (codes "203.0.113.9")) config persona)
alert_targets_iff_example =
    alert_targets_iff "medium" (some (codes "203.0.113.9")) (some config) (some persona) config
      persona
