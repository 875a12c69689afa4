-- ===== src/Alerts.antt =====
-- classifier/alerts.py: which alerts are sent, which are held back and counted, and where they go.
-- Times are whole seconds of a clock that the caller reads; the two module dictionaries and the
-- time of the last pruning are the state.
pub mod Held
pub mod Sessions
pub mod Once
pub mod Shut
pub mod Window
pub mod Targets
pub mod Routing
mod Tests
use echidra_oss.Base.{
  ℕ, ◌+◌, ◌-◌, String, List, [], ◌∷◌, ◌++◌, Bool, true, false, not, ◌&&◌, ◌||◌, Option, none, some,
  ltb, leb, ◌==◌, if◌then◌else◌, keep, length, str_eq, str_eq_iff, ◌≡◌, ◌↔◌, arith, is_some,
}
use echidra_oss.Base.Dict.{Eq, Dict, lookup, insert, erase, string_eq}
use echidra_oss.Rules.{
  ActorLabel, automated_scanner, brute_force_bot, commodity_bot, script_kiddie,
  skilled_human_operator,
}
use echidra_oss.Scoring.Risk.{RiskLevel}

-- What the decision reads of a session and its summary.
pub record Alert : Type 0 where
  pub session_id : String
  pub persona_id : String
  pub peer_ip : Option String
  pub risk_level : RiskLevel
  pub mitre_tags : List String
  pub actor_label : Option ActorLabel

-- `_RISK_RANKS`
unfoldable pub risk_rank : RiskLevel → ℕ
risk_rank RiskLevel.none = 0
risk_rank RiskLevel.low = 1
risk_rank RiskLevel.medium = 2
risk_rank RiskLevel.high = 3
risk_rank RiskLevel.critical = 4

-- The text of a label.
abbrev pub label_text : ActorLabel → String
label_text automated_scanner = "automated_scanner"
label_text brute_force_bot = "brute_force_bot"
label_text commodity_bot = "commodity_bot"
label_text script_kiddie = "script_kiddie"
label_text skilled_human_operator = "skilled_human_operator"

-- (persona, source address, lead technique)
pub record Key : Type 0 where
  pub persona : String
  pub source : String
  pub technique : String

abbrev pub key_beq : Key → Key → Bool
key_beq a b =
    str_eq a.persona b.persona && str_eq a.source b.source && str_eq a.technique b.technique

pub key_beq_iff : (a b : Key) → (key_beq a b ≡ true) ↔ (a ≡ b)
key_beq_iff a b = (
  λ h. ground (
    arith,
    str_eq_iff a.persona b.persona,
    str_eq_iff a.source b.source,
    str_eq_iff a.technique b.technique,
  ),
  λ e. ground (
    arith,
    str_eq_iff a.persona b.persona,
    str_eq_iff a.source b.source,
    str_eq_iff a.technique b.technique,
  ),
)

instance abbrev pub key_eq : Eq Key
key_eq = record { beq = key_beq; beq_iff = key_beq_iff }

abbrev pub label_or_empty : Option ActorLabel → String
label_or_empty none = ""
label_or_empty (some label) = label_text label

abbrev pub lead : List String → Option ActorLabel → String
lead [] label = label_or_empty label
lead (tag ∷ tags) label = tag

abbrev pub text_or_empty : Option String → String
text_or_empty none = ""
text_or_empty (some text) = text

-- `_group_key`
unfoldable pub group_key : Alert → Key
group_key alert = record {
  persona = alert.persona_id;
  source = text_or_empty alert.peer_ip;
  technique = lead alert.mitre_tags alert.actor_label;
}

-- `_AlertGroup`; a timer is the time at which it is due.
pub record AlertGroup : Type 0 where
  pub opened_at : ℕ
  pub rank : ℕ
  pub held : ℕ
  pub last_held_at : Option ℕ
  pub latest : Option Alert
  pub timer : Option ℕ

-- `_alert_groups`, `_alerted_session_ranks` and `_last_pruned_at`
pub record Grouping : Type 0 where
  pub groups : Dict Key AlertGroup
  pub session_ranks : Dict String ℕ
  pub last_pruned_at : Option ℕ

-- The state at the start and after `reset_alert_grouping`.
abbrev pub no_grouping : Grouping
no_grouping = record { groups = []; session_ranks = []; last_pruned_at = none }

-- `_MAX_TRACKED_SESSIONS` and `_PRUNE_INTERVAL_SECONDS`
abbrev pub max_tracked_sessions : ℕ
max_tracked_sessions = 10_000

abbrev pub prune_interval : ℕ
prune_interval = 60

-- `while len(d) > limit: d.popitem(last=False)`
unfoldable pub pop_oldest : ℕ → Dict String ℕ → Dict String ℕ
pop_oldest limit [] = []
pop_oldest limit (e ∷ d) = if ltb limit (length (e ∷ d)) then pop_oldest limit d else e ∷ d

-- The new rank of a session, moved to the end, and the oldest sessions dropped.
unfoldable pub track : String → ℕ → Dict String ℕ → Dict String ℕ
track session rank ranks =
    pop_oldest max_tracked_sessions (erase session ranks ++ (session, rank) ∷ [])

abbrev pub is_stale : ℕ → ℕ → Key × AlertGroup → Bool
is_stale window now (key, group) = not (is_some group.timer) && leb window (now - group.opened_at)

abbrev pub prune_due : ℕ → Option ℕ → Bool
prune_due now none = true
prune_due now (some last) = leb prune_interval (now - last)

-- The pruning of old groups, at most once a minute.
unfoldable pub prune : ℕ → ℕ → Grouping → Grouping
prune window now s =
    if prune_due now s.last_pruned_at
    then record s {
      groups = keep (λ e. not (is_stale window now e)) s.groups;
      last_pruned_at = some now;
    }
    else s

abbrev pub fresh_group : ℕ → ℕ → AlertGroup
fresh_group now rank = record {
  opened_at = now;
  rank = rank;
  held = 0;
  last_held_at = none;
  latest = none;
  timer = none;
}

abbrev pub is_critical : RiskLevel → Bool
is_critical RiskLevel.critical = true
is_critical _ = false

-- The test for an alert that goes out at once, when a group is there.
abbrev pub opens_window : ℕ → ℕ → Alert → AlertGroup → Bool
opens_window window now alert group =
    leb window (now - group.opened_at)
    || ltb group.rank (risk_rank alert.risk_level)
    || is_critical alert.risk_level

-- A timer that is there is kept; `utc` is the wall clock.
abbrev pub timer_or_start : Option ℕ → ℕ → Option ℕ
timer_or_start none due = some due
timer_or_start (some running) due = some running

abbrev pub hold : ℕ → ℕ → ℕ → Alert → AlertGroup → AlertGroup
hold window now utc alert group = record group {
  held = group.held + 1;
  last_held_at = some utc;
  latest = some alert;
  timer = timer_or_start group.timer (now + (group.opened_at + window - now));
}

-- The last part of the decision, on the group of the alert's key.
unfoldable pub decide_group : ℕ → ℕ → ℕ → Alert → Option AlertGroup → Grouping → Option ℕ × Grouping
decide_group window now utc alert none s = (
  some 0,
  record s {
    groups = insert (group_key alert) (fresh_group now (risk_rank alert.risk_level)) s.groups;
  },
)
decide_group window now utc alert (some group) s =
    if opens_window window now alert group
    then (
      some group.held,
      record s {
        groups = insert (group_key alert) (fresh_group now (risk_rank alert.risk_level)) s.groups;
      },
    )
    else (
      none,
      record s { groups = insert (group_key alert) (hold window now utc alert group) s.groups },
    )

abbrev pub already_alerted : ℕ → Option ℕ → Bool
already_alerted rank none = false
already_alerted rank (some previous) = leb rank previous

-- The part of the decision after the session has been tracked.
unfoldable pub decide_tracked : ℕ → ℕ → ℕ → Alert → Grouping → Option ℕ × Grouping
decide_tracked window now utc alert s =
    if window == 0
    then (some 0, s)
    else (let pruned = prune window now s in
        decide_group window now utc alert (lookup (group_key alert) pruned.groups) pruned)

-- `_alert_decision`: how many held-back sessions the alert counts, or nothing if it is not sent.
unfoldable pub alert_decision : ℕ → ℕ → ℕ → Alert → Grouping → Option ℕ × Grouping
alert_decision window now utc alert s =
    let rank = risk_rank alert.risk_level in
    if already_alerted rank (lookup alert.session_id s.session_ranks)
    then (none, s)
    else decide_tracked window now utc alert
        (record s { session_ranks = track alert.session_id rank s.session_ranks })

abbrev pub follow_up_latest :
    ℕ → Key → AlertGroup → Option Alert → Grouping → Option (ℕ × Alert) × Grouping
follow_up_latest now key group none s = (none, s)
follow_up_latest now key group (some latest) s = if group.held == 0 then (none, s) else (
  some (group.held, latest),
  record s { groups = insert key (fresh_group now group.rank) s.groups },
)

abbrev pub follow_up_of : ℕ → Key → Option AlertGroup → Grouping → Option (ℕ × Alert) × Grouping
follow_up_of now key none s = (none, s)
follow_up_of now key (some group) s = follow_up_latest now key group group.latest s

-- The part of `_send_follow_up` under the lock: the count and the alert that are due.
unfoldable pub take_follow_up : ℕ → Key → Grouping → Option (ℕ × Alert) × Grouping
take_follow_up now key s = follow_up_of now key (lookup key s.groups) s

-- What comes of a follow-up behind the lock: `_dispatch_alerts` runs to its end, `_alert_targets`
-- finds nobody to alert, or one of them raises, which the function logs and swallows.
pub data Delivery : Type 0 where
  dispatched no_targets raised : Delivery

abbrev pub delivered : Delivery → Option (ℕ × Alert) → Option (ℕ × Alert)
delivered dispatched due = due
delivered no_targets due = none
delivered raised due = none

-- `_send_follow_up`: the count and the alert that were dispatched. The group has been replaced by
-- a fresh one also where nothing was.
unfoldable pub send_follow_up : Delivery → ℕ → Key → Grouping → Option (ℕ × Alert) × Grouping
send_follow_up delivery now key s =
    let taken = take_follow_up now key s in (delivered delivery taken.0, taken.1)
