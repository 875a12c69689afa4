-- ===== src/Alerts/Shut.antt =====
-- A window that is open for a key, as single decisions open it and are held back by it.
use echidra_oss.Base.{
  ℕ, ◌&&◌, ◌+◌, ◌-◌, ◌≤◌, ◌<◌, false, not, ◌≡◌, ◌≢◌, refl, arith, Option, none, some, ◌==◌, leb,
  Bool-cases, inl, inr, is_some,
}
use echidra_oss.Base.Dict.{lookup, lookup-insert_self, lookup-keep}
use echidra_oss.Scoring.Risk.{RiskLevel}
use echidra_oss.Alerts.{
  Alert, Key, key_eq, AlertGroup, Grouping, prune_due, prune, fresh_group, risk_rank, track,
  group_key, is_critical, opens_window, decide_group, decide_tracked, alert_decision,
}
use echidra_oss.Alerts.Held.{is_repeat}

-- The state holds a group for the key that opened at a time with a rank.
abbrev pub HasWindow : Key → ℕ → ℕ → Grouping → Type 0
HasWindow key opened rank s =
    (g : AlertGroup) × (lookup key s.groups ≡ some g) × (g.opened_at ≡ opened) × (g.rank ≡ rank)

pub decide_tracked_new :
    (window now utc : ℕ) (alert : Alert) (s : Grouping)
    → (window == 0) ≡ false
    → decide_tracked window now utc alert s
      ≡ decide_group window now utc alert
          (lookup (group_key alert) (prune window now s).groups)
          (prune window now s)
unfolding decide_tracked
decide_tracked_new window now utc alert s pos = rw pos

decided-HasWindow :
    (window now utc : ℕ) (alert : Alert) (found : Option AlertGroup) (s : Grouping) {n : ℕ}
    → (decide_group window now utc alert found s).0 ≡ some n
    → HasWindow
        (group_key alert)
        now
        (risk_rank alert.risk_level)
        (decide_group window now utc alert found s).1
unfolding decide_group
decided-HasWindow window now utc alert none s e =
    (fresh_group now (risk_rank alert.risk_level), lookup-insert_self _ _ s.groups, refl, refl)
decided-HasWindow window now utc alert (some g) s e =
    elim (Bool-cases (opens_window window now alert g)) [
      | inl opens ↦ rw opens (
        fresh_group now (risk_rank alert.risk_level),
        lookup-insert_self _ _ s.groups,
        refl,
        refl,
      )
      | inr holds ↦ cc (rw holds at e)
    ]

pub prune-HasWindow :
    (window now opened rank : ℕ) (key : Key) (s : Grouping)
    → 0 < window
    → now < opened + window
    → HasWindow key opened rank s
    → HasWindow key opened rank (prune window now s)
unfolding prune
prune-HasWindow window now opened rank key s pos early (g, found, at_time, ranked) =
    elim (Bool-cases (prune_due now s.last_pruned_at)) [
      | inl due ↦ rw due (
        g,
        lookup-keep (λ v. not (not (is_some v.timer) && leb window (now - v.opened_at))) key g
            s.groups found (ground arith),
        at_time,
        ranked,
      )
      | inr recent ↦ rw recent (g, found, at_time, ranked)
    ]

pub not_critical : (level : RiskLevel) → level ≢ RiskLevel.critical → is_critical level ≡ false
not_critical RiskLevel.critical h = absurd (h refl)
not_critical _ h = refl

pub stays_shut :
    (window now : ℕ) (alert : Alert) (g : AlertGroup)
    → 0 < window
    → now < g.opened_at + window
    → risk_rank alert.risk_level ≤ g.rank
    → is_critical alert.risk_level ≡ false
    → opens_window window now alert g ≡ false
stays_shut window now alert g pos early lower calm = rw calm (ground arith)

held_in_window :
    (window now utc opened rank : ℕ) (alert : Alert) (s : Grouping)
    → 0 < window
    → now < opened + window
    → risk_rank alert.risk_level ≤ rank
    → alert.risk_level ≢ RiskLevel.critical
    → HasWindow (group_key alert) opened rank s
    → (decide_group window now utc alert (lookup (group_key alert) s.groups) s).0 ≡ none
unfolding decide_group
held_in_window window now utc opened rank alert s pos early lower calm (g, found, at_time, ranked) =
    let shut =
      stays_shut window now alert g pos (rw at_time early) (rw ranked lower)
        (not_critical alert.risk_level calm) in
    rw (found, shut)

-- A decision that sends leaves a window open.
pub sent-HasWindow :
    (window now utc : ℕ) (alert : Alert) (s : Grouping) {n : ℕ}
    → 0 < window
    → (alert_decision window now utc alert s).0 ≡ some n
    → HasWindow
        (group_key alert)
        now
        (risk_rank alert.risk_level)
        (alert_decision window now utc alert s).1
unfolding alert_decision
sent-HasWindow window now utc alert s pos sent = elim (Bool-cases (is_repeat alert s)) [
  | inl repeat ↦ cc (rw repeat at sent)
  | inr new ↦
      let split =
        decide_tracked_new window now utc alert
          (record s {
            session_ranks = track alert.session_id (risk_rank alert.risk_level) s.session_ranks;
          })
          (ground arith) in
      rw (new, split) (decided-HasWindow window now utc alert _ _ (rw (new, split) at sent))
]

-- In an open window an alert is not sent.
pub unsent_in_window :
    (window now utc opened rank : ℕ) (alert : Alert) (s : Grouping)
    → 0 < window
    → now < opened + window
    → risk_rank alert.risk_level ≤ rank
    → alert.risk_level ≢ RiskLevel.critical
    → HasWindow (group_key alert) opened rank s
    → (alert_decision window now utc alert s).0 ≡ none
unfolding alert_decision
unsent_in_window window now utc opened rank alert s pos early lower calm open_window =
    elim (Bool-cases (is_repeat alert s)) [
      | inl repeat ↦ rw repeat
      | inr new ↦
          let tracked = record s {
            session_ranks = track alert.session_id (risk_rank alert.risk_level) s.session_ranks;
          } in
          let kept =
            prune-HasWindow window now opened rank (group_key alert) tracked pos early
              open_window in
          rw (new, decide_tracked_new window now utc alert tracked (ground arith))
            (held_in_window window now utc opened rank alert _ pos early lower calm kept)
    ]
