-- ===== src/Alerts/Held.antt =====
-- What becomes of the sessions that were held back.
use mathlib.Core.Path.{subst}
use echidra_oss.Base.{
  ◌==◌, ◌⊎◌, ℕ, ◌+◌, List, [], ◌∷◌, Bool, true, false, not, ◌≡◌, refl, arith, Option, none, some,
  All, All-keep, if_either, sum_of, keep, if◌then◌else◌, Option-cases, Bool-cases, inl, inr, ◌⊎◌,
}
use echidra_oss.Base.Dict.{
  string_eq, Dict, lookup, sum_of-insert, sum_of-insert_new, All-lookup, All-insert,
}
use echidra_oss.Scoring.Vote.{held_votes}
use echidra_oss.Alerts.{
  already_alerted, Alert, Key, key_eq, AlertGroup, Grouping, no_grouping, is_stale, prune,
  prune_due, fresh_group, hold, risk_rank, group_key, opens_window, decide_group, decide_tracked,
  alert_decision, follow_up_latest, send_follow_up, take_follow_up, Delivery, dispatched,
  no_targets, raised, delivered,
}

-- A group that holds sessions back has a timer and the latest of them.
pub record IsWaiting (g : AlertGroup) : Type 0 where
  pub timed : g.timer ≡ none → g.held ≡ 0
  pub kept : g.latest ≡ none → g.held ≡ 0

abbrev pub IsValid : Grouping → Type 0
IsValid s = All (λ e. IsWaiting e.1) s.groups

abbrev pub held_of : Dict Key AlertGroup → ℕ
held_of groups = sum_of (λ e. e.1.held) groups

-- The sessions that are held back and not yet counted by an alert.
abbrev pub total_held : Grouping → ℕ
total_held s = held_of s.groups

-- The sessions that a follow-up counts, and those that a group holds back.
abbrev pub reported : Option (ℕ × Alert) → ℕ
reported none = 0
reported (some (repeats, latest)) = repeats

abbrev pub waiting : Option AlertGroup → ℕ
waiting none = 0
waiting (some group) = group.held

-- The session has alerted before at this level or a higher one.
abbrev pub is_repeat : Alert → Grouping → Bool
is_repeat alert s =
    already_alerted (risk_rank alert.risk_level) (lookup alert.session_id s.session_ranks)

-- What an alert that reaches the groups does, by the number held back before: the sessions that it
-- counts are taken off, and if it is not sent it joins those held back.
abbrev pub Counts : ℕ → Option ℕ × Grouping → Type 0
Counts before (some counted, s') = IsValid s' × (total_held s' + counted ≡ before)
Counts before (none, s') = IsValid s' × (total_held s' ≡ before + 1)

fresh-IsWaiting : (now rank : ℕ) → IsWaiting (fresh_group now rank)
fresh-IsWaiting now rank = ground arith

hold-IsWaiting :
    (window now utc : ℕ) (alert : Alert) (g : AlertGroup) → IsWaiting (hold window now utc alert g)
hold-IsWaiting window now utc alert g = ground arith

keep-held :
    (window now : ℕ) (groups : Dict Key AlertGroup)
    → All (λ e. IsWaiting e.1) groups
    → held_of (keep (λ e. not (is_stale window now e)) groups) ≡ held_of groups
keep-held window now [] h = refl
keep-held window now (e ∷ groups) (w, h) = ground (arith, keep-held window now groups h)

prune-held :
    (window now : ℕ) (s : Grouping) → IsValid s → total_held (prune window now s) ≡ total_held s
unfolding prune
prune-held window now s h = ground (arith, keep-held window now s.groups h)

prune-IsValid : (window now : ℕ) (s : Grouping) → IsValid s → IsValid (prune window now s)
unfolding prune
prune-IsValid window now s h =
    if_either IsValid (prune_due now s.last_pruned_at) _ s (All-keep _ _ s.groups h) h

decide_group-Counts :
    (window now utc : ℕ) (alert : Alert) (s : Grouping)
    → IsValid s
    → Counts
        (total_held s)
        (decide_group window now utc alert (lookup (group_key alert) s.groups) s)
unfolding decide_group
decide_group-Counts window now utc alert s h =
    elim (Option-cases (lookup (group_key alert) s.groups)) [
      | inl e ↦ rw e (
        All-insert IsWaiting _ _ s.groups h (fresh-IsWaiting _ _),
        ground (
          arith,
          sum_of-insert_new AlertGroup.held (group_key alert)
              (fresh_group now (risk_rank alert.risk_level)) s.groups e,
        ),
      )
      | inr (g, e) ↦ elim (Bool-cases (opens_window window now alert g)) [
        | inl opens ↦
            rw (e, opens)
              (
                All-insert IsWaiting _ _ s.groups h (fresh-IsWaiting _ _),
                ground (
                  arith,
                  sum_of-insert AlertGroup.held (group_key alert)
                      (fresh_group now (risk_rank alert.risk_level)) g s.groups e,
                ),
              )
        | inr holds ↦
            rw (e, holds)
              (
                All-insert IsWaiting _ _ s.groups h (hold-IsWaiting window now utc alert g),
                (omega (
                  arith,
                  sum_of-insert AlertGroup.held (group_key alert) (hold window now utc alert g) g
                      s.groups e,
                )),
              )
      ]
    ]

decide_tracked-Counts :
    (window now utc : ℕ) (alert : Alert) (s : Grouping)
    → IsValid s
    → Counts (total_held s) (decide_tracked window now utc alert s)
unfolding decide_tracked
decide_tracked-Counts window now utc alert s h =
    let pruned = prune window now s in
    let decided = decide_group-Counts window now utc alert pruned (prune-IsValid window now s h) in
    if_either (Counts (total_held s)) (window == 0) _ _ (h, omega arith)
      (subst
        (λ n.
          Counts n
            (decide_group window now utc alert (lookup (group_key alert) pruned.groups) pruned))
        (prune-held window now s h) decided)

-- Of every decision in a valid state: if its session has alerted at this level or a higher one,
-- nothing is sent and nothing changes; otherwise the state stays valid, a sent alert takes off
-- exactly the held sessions that it counts, and an alert that is not sent joins those held back.
alert_decision-Counts :
    (window now utc : ℕ) (alert : Alert) (s : Grouping)
    → IsValid s
    → ((is_repeat alert s ≡ true) × (alert_decision window now utc alert s ≡ (none, s)))
      ⊎ ((is_repeat alert s ≡ false)
          × Counts (total_held s) (alert_decision window now utc alert s))
unfolding alert_decision
alert_decision-Counts window now utc alert s h = elim (Bool-cases (is_repeat alert s)) [
  | inl repeat ↦ inl (repeat, rw repeat)
  | inr new ↦ inr (new, rw new (decide_tracked-Counts window now utc alert _ h))
]

-- A follow-up for a group, by what it kept of the latest session.
follow_up_latest-counts :
    (now : ℕ) (key : Key) (g : AlertGroup) (latest : Option Alert) (s : Grouping)
    → IsValid s
    → lookup key s.groups ≡ some g
    → (latest ≡ none → g.held ≡ 0)
    → let (sent, s') = follow_up_latest now key g latest s in
      IsValid s' × (total_held s' + reported sent ≡ total_held s) × (reported sent ≡ g.held)
follow_up_latest-counts now key g none s h found kept = (h, omega arith, omega (arith, kept refl))
follow_up_latest-counts now key g (some latest) s h found kept = elim (Bool-cases (g.held == 0)) [
  | inl idle ↦ rw idle (h, omega arith, ground arith)
  | inr busy ↦ rw busy (
    All-insert IsWaiting key _ s.groups h (fresh-IsWaiting now g.rank),
    omega (arith, sum_of-insert AlertGroup.held key (fresh_group now g.rank) g s.groups found),
    refl,
  )
]

-- A follow-up takes off exactly the sessions that it counts; in a valid state it is due for every
-- group that holds a session back.
take_follow_up-counts :
    (now : ℕ) (key : Key) (s : Grouping)
    → IsValid s
    → IsValid (take_follow_up now key s).1
      × (total_held (take_follow_up now key s).1 + reported (take_follow_up now key s).0
          ≡ total_held s)
      × (reported (take_follow_up now key s).0 ≡ waiting (lookup key s.groups))
unfolding take_follow_up
take_follow_up-counts now key s h = elim (Option-cases (lookup key s.groups)) [
  | inl e ↦ rw e (h, omega arith, refl)
  | inr (g, e) ↦ rw e (
      follow_up_latest-counts now key g g.latest s h e
        (All-lookup IsWaiting key g s.groups h e).kept)
]

-- What happens to the state: an alert is decided, or a timer of a key fires, with what comes of
-- its follow-up. The window of the environment and the clocks are those read at that moment.
pub data Event : Type 0 where
  decide : (window now utc : ℕ) → Alert → Event
  fire : Delivery → (now : ℕ) → Key → Event

abbrev pub step : Event → Grouping → Grouping
step (decide window now utc alert) s = (alert_decision window now utc alert s).1
step (fire delivery now key) s = (send_follow_up delivery now key s).1

-- The sessions that an event counts in the message that it decides on or dispatches.
abbrev pub counted : Event → Grouping → ℕ
counted (decide window now utc alert) s = held_votes (alert_decision window now utc alert s).0
counted (fire delivery now key) s = reported (send_follow_up delivery now key s).0

abbrev pub undelivered : Delivery → ℕ → ℕ
undelivered dispatched due = 0
undelivered no_targets due = due
undelivered raised due = due

-- The sessions that a group has given up for a follow-up which is not dispatched.
abbrev pub lost : Event → Grouping → ℕ
lost (decide window now utc alert) s = 0
lost (fire delivery now key) s = undelivered delivery (waiting (lookup key s.groups))

abbrev pub if_unsent : Option ℕ → ℕ
if_unsent none = 1
if_unsent (some _) = 0

-- One for a new alert that is not sent.
abbrev pub withheld : Event → Grouping → ℕ
withheld (decide window now utc alert) s =
    if is_repeat alert s then 0 else if_unsent (alert_decision window now utc alert s).0
withheld (fire delivery now key) s = 0

abbrev pub run : List Event → Grouping → Grouping
run [] s = s
run (e ∷ es) s = run es (step e s)

-- What a measure of the events adds up to along a run.
abbrev pub along : (Event → Grouping → ℕ) → List Event → Grouping → ℕ
along f [] s = 0
along f (e ∷ es) s = f e s + along f es (step e s)

Counts-sums :
    (before : ℕ) (r : Option ℕ × Grouping)
    → Counts before r
    → IsValid r.1 × (total_held r.1 + (held_votes r.0 + 0) ≡ before + if_unsent r.0)
Counts-sums before (none, s') h = ground arith
Counts-sums before (some n, s') h = ground arith

unchanged-sums :
    (s : Grouping) (r : Option ℕ × Grouping)
    → IsValid s
    → r ≡ (none, s)
    → IsValid r.1 × (total_held r.1 + (held_votes r.0 + 0) ≡ total_held s + 0)
unchanged-sums s r h e = rw e (h, omega arith)

delivered-sums :
    (delivery : Delivery) (due : Option (ℕ × Alert))
    → reported (delivered delivery due) + undelivered delivery (reported due) ≡ reported due
delivered-sums dispatched due = omega arith
delivered-sums no_targets due = omega arith
delivered-sums raised due = omega arith

step-sums :
    (e : Event) (s : Grouping)
    → IsValid s
    → IsValid (step e s)
      × (total_held (step e s) + (counted e s + lost e s) ≡ total_held s + withheld e s)
unfolding send_follow_up
step-sums (decide window now utc alert) s h =
    elim (alert_decision-Counts window now utc alert s h) [
      | inl (repeat, same) ↦ rw repeat (unchanged-sums s _ h same)
      | inr (new, counts) ↦ rw new (Counts-sums (total_held s) _ counts)
    ]
step-sums (fire delivery now key) s h =
    let (valid, sums, due) = take_follow_up-counts now key s h in
    (valid, rw (← due) (omega (arith, sums, delivered-sums delivery (take_follow_up now key s).0)))

run-sums :
    (es : List Event) (s : Grouping)
    → IsValid s
    → IsValid (run es s)
      × (total_held (run es s) + (along counted es s + along lost es s)
          ≡ total_held s + along withheld es s)
run-sums [] s h = (h, omega arith)
run-sums (e ∷ es) s h =
    let (valid, here) = step-sums e s h in
    let (later, rest) = run-sums es (step e s) valid in (later, omega arith)

-- After any sequence of alerts and fired timers from the empty state, each session that was held
-- back has been counted exactly once: in the message of a later alert, in a follow-up that was
-- dispatched, among those given up for a follow-up that found nobody to alert or raised, or among
-- those that still wait; and every group in which a session waits has a timer.
pub run_accounts :
    (es : List Event)
    → IsValid (run es no_grouping)
      × (total_held (run es no_grouping)
            + (along counted es no_grouping + along lost es no_grouping)
          ≡ along withheld es no_grouping)
run_accounts es = let (valid, sums) = run-sums es no_grouping tt in (valid, omega arith)
