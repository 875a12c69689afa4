-- ===== src/Alerts/Window.antt =====
-- Within a window a source gets one message, and a critical session is never held back.
use mathlib.Core.Bool.{false≢true}
use echidra_oss.Base.{
  ℕ, ◌+◌, ◌≤◌, ◌<◌, true, false, ◌≡◌, ◌≢◌, arith, Option, none, some, ◌==◌, Bool-cases, inl, inr,
  is_some, List, [], ◌∷◌, All, Option-cases, if_either, sym, ◌∙◌,
}
use echidra_oss.Base.Dict.{lookup, lookup-insert_self, insert, lookup-insert_ne}
use echidra_oss.Scoring.Risk.{RiskLevel}
use echidra_oss.Alerts.{
  Alert, Key, key_eq, AlertGroup, Grouping, prune, fresh_group, risk_rank, track, group_key,
  opens_window, decide_group, decide_tracked, alert_decision, hold, send_follow_up, take_follow_up,
  follow_up_latest, Delivery,
}
use echidra_oss.Alerts.Held.{is_repeat, run, Event, decide, fire}
use echidra_oss.Alerts.Shut.{
  HasWindow, decide_tracked_new, prune-HasWindow, not_critical, stays_shut, sent-HasWindow,
  unsent_in_window,
}

-- An alert that is held back by a window of a rank.
abbrev pub IsHeldAt : ℕ → Alert → Type 0
IsHeldAt rank alert = (risk_rank alert.risk_level ≤ rank) × (alert.risk_level ≢ RiskLevel.critical)

decided_same :
    (window now utc opened rank : ℕ) (alert : Alert) (s : Grouping)
    → 0 < window
    → now < opened + window
    → IsHeldAt rank alert
    → HasWindow (group_key alert) opened rank s
    → HasWindow
        (group_key alert)
        opened
        rank
        (decide_group window now utc alert (lookup (group_key alert) s.groups) s).1
unfolding decide_group
decided_same window now utc opened rank alert s pos early (lower, calm)
      (g, found, at_time, ranked) =
    let shut =
      stays_shut window now alert g pos (rw at_time early) (rw ranked lower)
        (not_critical alert.risk_level calm) in
    rw (found, shut)
      (
        hold window now utc alert g,
        lookup-insert_self (group_key alert) (hold window now utc alert g) s.groups,
        at_time,
        ranked,
      )

inserted_other :
    (opened rank : ℕ) (key other : Key) (group : AlertGroup) (s : Grouping)
    → other ≢ key
    → HasWindow key opened rank s
    → HasWindow key opened rank (record s { groups = insert other group s.groups })
inserted_other opened rank key other group s ne (g, found, at_time, ranked) =
    (g, lookup-insert_ne other key group s.groups ne ∙ found, at_time, ranked)

decided_other :
    (window now utc opened rank : ℕ) (key : Key) (alert : Alert) (s : Grouping)
    → HasWindow key opened rank s
    → group_key alert ≢ key
    → HasWindow key opened rank
        (decide_group window now utc alert (lookup (group_key alert) s.groups) s).1
unfolding decide_group
decided_other window now utc opened rank key alert s h ne =
    let fresh = fresh_group now (risk_rank alert.risk_level) in
    elim (Option-cases (lookup (group_key alert) s.groups)) [
      | inl e ↦ rw e (inserted_other opened rank key (group_key alert) fresh s ne h)
      | inr (g, e) ↦ rw e (
          if_either {A = Option ℕ × Grouping} (λ r. HasWindow key opened rank r.1)
            (opens_window window now alert g) _ _
            (inserted_other opened rank key (group_key alert) fresh s ne h)
            (inserted_other opened rank key (group_key alert) (hold window now utc alert g) s ne h))
    ]

follow_up_latest-HasWindow :
    (now opened rank : ℕ) (key fired : Key) (g : AlertGroup) (latest : Option Alert) (s : Grouping)
    → fired ≢ key
    → HasWindow key opened rank s
    → HasWindow key opened rank (follow_up_latest now fired g latest s).1
follow_up_latest-HasWindow now opened rank key fired g none s ne h = h
follow_up_latest-HasWindow now opened rank key fired g (some latest) s ne h =
    if_either {A = Option (ℕ × Alert) × Grouping} (λ r. HasWindow key opened rank r.1) (g.held == 0)
      _ _ h (inserted_other opened rank key fired (fresh_group now g.rank) s ne h)

-- A held alert leaves the window of its key as it is, and one of another key does not touch it.
decide_group-HasWindow :
    (window now utc opened rank : ℕ) (key : Key) (alert : Alert) (s : Grouping)
    → 0 < window
    → now < opened + window
    → (group_key alert ≡ key → IsHeldAt rank alert)
    → HasWindow key opened rank s
    → HasWindow key opened rank
        (decide_group window now utc alert (lookup (group_key alert) s.groups) s).1
unfolding decide_group
decide_group-HasWindow window now utc opened rank key alert s pos early held h =
    elim (Bool-cases (key_eq.beq (group_key alert) key)) [
      | inl same ↦
          let e = (key_eq.beq_iff (group_key alert) key).0 same in
          rw (← e) (decided_same window now utc opened rank alert s pos early (held e) (rw e h))
      | inr other ↦
          decided_other window now utc opened rank key alert s h
            (λ e. false≢true (sym other ∙ (key_eq.beq_iff (group_key alert) key).1 e))
    ]

alert_decision-HasWindow :
    (window now utc opened rank : ℕ) (key : Key) (alert : Alert) (s : Grouping)
    → 0 < window
    → now < opened + window
    → (group_key alert ≡ key → IsHeldAt rank alert)
    → HasWindow key opened rank s
    → HasWindow key opened rank (alert_decision window now utc alert s).1
unfolding alert_decision
alert_decision-HasWindow window now utc opened rank key alert s pos early held h =
    elim (Bool-cases (is_repeat alert s)) [
      | inl repeat ↦ rw repeat h
      | inr new ↦
          let tracked = record s {
            session_ranks = track alert.session_id (risk_rank alert.risk_level) s.session_ranks;
          } in
          rw (new, decide_tracked_new window now utc alert tracked (ground arith))
            (decide_group-HasWindow window now utc opened rank key alert (prune window now tracked)
              pos early held (prune-HasWindow window now opened rank key tracked pos early h))
    ]

send_follow_up-HasWindow :
    (delivery : Delivery) (now opened rank : ℕ) (key fired : Key) (s : Grouping)
    → fired ≢ key
    → HasWindow key opened rank s
    → HasWindow key opened rank (send_follow_up delivery now fired s).1
unfolding send_follow_up take_follow_up
send_follow_up-HasWindow delivery now opened rank key fired s other h =
    elim (Option-cases (lookup fired s.groups)) [
      | inl e ↦ rw e h
      | inr (g, e) ↦
          rw e (follow_up_latest-HasWindow now opened rank key fired g g.latest s other h)
    ]

-- An event inside the window that cannot open a new one for the key: a decision with the same
-- window, of no alert of that key above the rank or critical, or the timer of another key.
abbrev pub IsInside : ℕ → Key → ℕ → ℕ → Event → Type 0
IsInside window key opened rank (decide window' now utc alert) =
    (window' ≡ window) × (now < opened + window) × (group_key alert ≡ key → IsHeldAt rank alert)
IsInside window key opened rank (fire delivery now fired) = fired ≢ key

run-HasWindow :
    (window opened rank : ℕ) (key : Key) (es : List Event) (s : Grouping)
    → 0 < window
    → All (IsInside window key opened rank) es
    → HasWindow key opened rank s
    → HasWindow key opened rank (run es s)
run-HasWindow window opened rank key [] s pos h k = k
run-HasWindow window opened rank key (decide window' now utc alert ∷ es) s pos
      ((same, early, held), h) k =
    run-HasWindow window opened rank key es _ pos h
      (rw same (alert_decision-HasWindow window now utc opened rank key alert s pos early held k))
run-HasWindow window opened rank key (fire delivery now fired ∷ es) s pos (other, h) k =
    run-HasWindow window opened rank key es _ pos h
      (send_follow_up-HasWindow delivery now opened rank key fired s other k)

-- After an alert has been sent, no alert for the same persona, source and lead technique is sent
-- within the window, if its level is no higher and not critical. In between there may be any
-- alerts, of this key at such levels, and timers of other keys.
pub alert_decision_window :
    (window now utc : ℕ) (first : Alert) (s : Grouping) (n : ℕ) (between : List Event)
    (now' utc' : ℕ) (second : Alert)
    → 0 < window
    → (alert_decision window now utc first s).0 ≡ some n
    → All (IsInside window (group_key first) now (risk_rank first.risk_level)) between
    → group_key second ≡ group_key first
    → risk_rank second.risk_level ≤ risk_rank first.risk_level
    → second.risk_level ≢ RiskLevel.critical
    → now' < now + window
    → (alert_decision window now' utc' second
        (run between (alert_decision window now utc first s).1)).0
      ≡ none
alert_decision_window window now utc first s n between now' utc' second pos sent inside same lower
      calm early =
    let rank = risk_rank first.risk_level in
    let opened =
      run-HasWindow window now rank (group_key first) between _ pos inside
        (sent-HasWindow window now utc first s pos sent) in
    unsent_in_window window now' utc' now rank second _ pos early lower calm (rw same opened)

-- A critical alert that is new for its session is always sent at once.
pub alert_decision_critical :
    (window now utc : ℕ) (alert : Alert) (s : Grouping)
    → is_repeat alert s ≡ false
    → alert.risk_level ≡ RiskLevel.critical
    → is_some (alert_decision window now utc alert s).0 ≡ true
unfolding alert_decision decide_tracked decide_group
alert_decision_critical window now utc alert s new critical = ground arith
