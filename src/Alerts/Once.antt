-- ===== src/Alerts/Once.antt =====
-- A session alerts once per level, as long as it is among those that are remembered.
use echidra_oss.Alerts.Held.{is_repeat, Event, decide, fire, run, step}
use echidra_oss.Alerts.Sessions.{
  IsTracked, alert_decision-IsTracked, decide_new-ranks, repeat-unchanged,
}
use echidra_oss.Base.{
  ℕ, ◌+◌, ◌≤◌, ◌<◌, String, [], ◌∷◌, ◌++◌, Bool, true, false, ◌&&◌, ◌≡◌, ◌≢◌, refl, arith, none,
  if◌then◌else◌, length, Bool-cases, inl, inr, leb, length-append, Option-cases, some, sym, Option,
  ◌∙◌,
}
use mathlib.Core.Bool.{false≢true}
use echidra_oss.Base.Dict.{Dict, lookup, erase, string_eq, lookup-erase_self}
use echidra_oss.Alerts.{
  pop_oldest, already_alerted, Key, AlertGroup, key_eq, track, Option, Grouping, Alert,
  send_follow_up, List, max_tracked_sessions, alert_decision, follow_up_latest, take_follow_up,
  Delivery, risk_rank,
}

-- The session stands with at least a rank, and at most some number of sessions behind it.
unfoldable pub is_recent : String → ℕ → ℕ → Dict String ℕ → Bool
is_recent k rank behind [] = false
is_recent k rank behind ((j, v) ∷ d) =
    if string_eq.beq j k then leb rank v && leb (length d) behind else is_recent k rank behind d

is_recent-alerted :
    (k : String) (low rank behind : ℕ) (d : Dict String ℕ)
    → low ≤ rank
    → is_recent k rank behind d ≡ true
    → already_alerted low (lookup k d) ≡ true
unfolding is_recent lookup
is_recent-alerted k low rank behind [] lower h = cc
is_recent-alerted k low rank behind ((j, v) ∷ d) lower h = elim (Bool-cases (string_eq.beq j k)) [
  | inl same ↦ rw same (let h' = rw same at h in ground arith)
  | inr other ↦ rw other (is_recent-alerted k low rank behind d lower (rw other at h))
]

length-erase : (j : String) (d : Dict String ℕ) → length (erase j d) ≤ length d
unfolding erase
length-erase j [] = omega arith
length-erase j (x ∷ d) = ground (arith, length-erase j d)

is_recent-erase :
    (j k : String) (rank behind : ℕ) (d : Dict String ℕ)
    → j ≢ k
    → is_recent k rank behind d ≡ true
    → is_recent k rank behind (erase j d) ≡ true
unfolding is_recent erase
is_recent-erase j k rank behind [] ne h = h
is_recent-erase j k rank behind ((i, v) ∷ d) ne h = ground (
  arith,
  is_recent-erase j k rank behind d ne,
  length-erase j d,
  string_eq.beq_iff i j,
  string_eq.beq_iff i k,
)

is_recent-append :
    (k : String) (rank behind : ℕ) (x : String × ℕ) (d : Dict String ℕ)
    → is_recent k rank behind d ≡ true
    → is_recent k rank (behind + 1) (d ++ x ∷ []) ≡ true
unfolding is_recent
is_recent-append k rank behind x [] h = absurd (false≢true h)
is_recent-append k rank behind x ((i, v) ∷ d) h =
    ground (arith, is_recent-append k rank behind x d, length-append d (x ∷ []))

is_recent-last :
    (k : String) (rank v : ℕ) (d : Dict String ℕ)
    → lookup k d ≡ none
    → rank ≤ v
    → is_recent k rank 0 (d ++ (k, v) ∷ []) ≡ true
unfolding is_recent lookup
is_recent-last k rank v [] h lower = ground (arith, (string_eq.beq_iff k k).1 refl)
is_recent-last k rank v ((i, w) ∷ d) h lower = ground (arith, is_recent-last k rank v d)

is_recent-pop_oldest :
    (limit : ℕ) (k : String) (rank behind : ℕ) (d : Dict String ℕ)
    → behind < limit
    → is_recent k rank behind d ≡ true
    → is_recent k rank behind (pop_oldest limit d) ≡ true
unfolding is_recent pop_oldest
is_recent-pop_oldest limit k rank behind [] room h = h
is_recent-pop_oldest limit k rank behind ((i, v) ∷ d) room h =
    ground (arith, is_recent-pop_oldest limit k rank behind d room)

-- The session just tracked is the newest.
track-is_recent_self :
    (k : String) (rank v : ℕ) (ranks : Dict String ℕ)
    → IsTracked ranks
    → rank ≤ v
    → is_recent k rank 0 (track k v ranks) ≡ true
unfolding track
track-is_recent_self k rank v ranks h lower =
    is_recent-pop_oldest max_tracked_sessions k rank 0 _ (omega arith)
      (is_recent-last k rank v (erase k ranks) (lookup-erase_self k ranks h.keyed) lower)

track-is_recent_other :
    (j k : String) (rank v behind : ℕ) (ranks : Dict String ℕ)
    → j ≢ k
    → behind + 1 < 10_000
    → is_recent k rank behind ranks ≡ true
    → is_recent k rank (behind + 1) (track j v ranks) ≡ true
unfolding track
track-is_recent_other j k rank v behind ranks ne room h =
    is_recent-pop_oldest max_tracked_sessions k rank (behind + 1) _ room (
      is_recent-append k rank behind (j, v) (erase j ranks)
        (is_recent-erase j k rank behind ranks ne h))

is_recent-weaken :
    (k : String) (rank behind more : ℕ) (d : Dict String ℕ)
    → behind ≤ more
    → is_recent k rank behind d ≡ true
    → is_recent k rank more d ≡ true
unfolding is_recent
is_recent-weaken k rank behind more [] le h = h
is_recent-weaken k rank behind more ((i, v) ∷ d) le h =
    ground (arith, is_recent-weaken k rank behind more d le)

above :
    (rank new : ℕ) (found : Option ℕ)
    → already_alerted rank found ≡ true
    → already_alerted new found ≡ false
    → rank ≤ new
above rank new none h k = absurd (false≢true h)
above rank new (some v) h k = ground arith

-- A new alert moves the session by at most one, and its own raises it.
track-is_recent :
    (j k : String) (rank v behind : ℕ) (ranks : Dict String ℕ)
    → IsTracked ranks
    → already_alerted v (lookup j ranks) ≡ false
    → behind + 1 < 10_000
    → is_recent k rank behind ranks ≡ true
    → is_recent k rank (behind + 1) (track j v ranks) ≡ true
track-is_recent j k rank v behind ranks h new room recent = elim (Bool-cases (string_eq.beq j k)) [
  | inl same ↦
      let e = (string_eq.beq_iff j k).0 same in
      let alerted = is_recent-alerted k rank rank behind ranks (omega arith) recent in
      let lower = above rank v (lookup k ranks) alerted (rw (← e) new) in
      is_recent-weaken k rank 0 (behind + 1) _ (omega arith)
        (rw e (track-is_recent_self k rank v ranks h lower))
  | inr other ↦
      track-is_recent_other j k rank v behind ranks
        (λ e. false≢true (sym other ∙ (string_eq.beq_iff j k).1 e)) room recent
]

-- What is kept of the session between events.
abbrev Remembers : String → ℕ → ℕ → Grouping → Type 0
Remembers k rank behind s =
    IsTracked s.session_ranks × (is_recent k rank behind s.session_ranks ≡ true)

alert_decision-Remembers :
    (k : String) (rank behind window now utc : ℕ) (alert : Alert) (s : Grouping)
    → behind + 1 < 10_000
    → Remembers k rank behind s
    → Remembers k rank (behind + 1) (alert_decision window now utc alert s).1
alert_decision-Remembers k rank behind window now utc alert s room (h, recent) = (
  alert_decision-IsTracked window now utc alert s h,
  elim (Bool-cases (is_repeat alert s)) [
    | inl repeat ↦
        rw (repeat-unchanged window now utc alert s repeat)
          (is_recent-weaken k rank behind (behind + 1) s.session_ranks (omega arith) recent)
    | inr new ↦ rw (decide_new-ranks window now utc alert s new) (
        track-is_recent alert.session_id k rank (risk_rank alert.risk_level) behind s.session_ranks
          h new room recent)
  ],
)

follow_up_latest-ranks :
    (now : ℕ) (key : Key) (g : AlertGroup) (latest : Option Alert) (s : Grouping)
    → (follow_up_latest now key g latest s).1.session_ranks ≡ s.session_ranks
follow_up_latest-ranks now key g none s = refl
follow_up_latest-ranks now key g (some latest) s = ground arith

send_follow_up-ranks :
    (delivery : Delivery) (now : ℕ) (key : Key) (s : Grouping)
    → (send_follow_up delivery now key s).1.session_ranks ≡ s.session_ranks
unfolding send_follow_up take_follow_up
send_follow_up-ranks delivery now key s = elim (Option-cases (lookup key s.groups)) [
  | inl e ↦ rw e refl
  | inr (g, e) ↦ rw e (follow_up_latest-ranks now key g g.latest s)
]

step-Remembers :
    (k : String) (rank behind : ℕ) (e : Event) (s : Grouping)
    → behind + 1 < 10_000
    → Remembers k rank behind s
    → Remembers k rank (behind + 1) (step e s)
step-Remembers k rank behind (decide window now utc alert) s room h =
    alert_decision-Remembers k rank behind window now utc alert s room h
step-Remembers k rank behind (fire delivery now key) s room (h, recent) =
    rw (send_follow_up-ranks delivery now key s)
      (h, is_recent-weaken k rank behind (behind + 1) s.session_ranks (omega arith) recent)

run-Remembers :
    (k : String) (rank behind : ℕ) (es : List Event) (s : Grouping)
    → behind + length es < 10_000
    → Remembers k rank behind s
    → Remembers k rank (behind + length es) (run es s)
run-Remembers k rank behind [] s room (h, recent) =
    (h, is_recent-weaken k rank behind (behind + 0) s.session_ranks (omega arith) recent)
run-Remembers k rank behind (e ∷ es) s room h =
    let (tracked, recent) =
      run-Remembers k rank (behind + 1) es (step e s) (omega (arith, room))
        (step-Remembers k rank behind e s (omega (arith, room)) h) in
    (tracked, is_recent-weaken k rank _ _ (run es (step e s)).session_ranks (omega arith) recent)

-- Once a new alert for a session has been decided, whether it was sent or held back, an alert for
-- the same session at the same level or a lower one is not sent and changes nothing, if fewer than
-- 10,000 other alerts and timers came in between.
pub alert_decision_once :
    (window now utc : ℕ) (first : Alert) (s : Grouping) (between : List Event)
    (window' now' utc' : ℕ) (second : Alert)
    → IsTracked s.session_ranks
    → is_repeat first s ≡ false
    → length between < 10_000
    → second.session_id ≡ first.session_id
    → risk_rank second.risk_level ≤ risk_rank first.risk_level
    → let s' = run between (alert_decision window now utc first s).1 in
      alert_decision window' now' utc' second s' ≡ (none, s')
alert_decision_once window now utc first s between window' now' utc' second h new few same lower =
    let rank = risk_rank first.risk_level in
    let start : is_recent first.session_id rank 0
          (alert_decision window now utc first s).1.session_ranks
        ≡ true =
      rw (decide_new-ranks window now utc first s new)
        (track-is_recent_self first.session_id rank rank s.session_ranks h (omega arith)) in
    let (tracked, recent) =
      run-Remembers first.session_id rank 0 between (alert_decision window now utc first s).1
        (omega (arith, few)) (alert_decision-IsTracked window now utc first s h, start) in
    repeat-unchanged window' now' utc' second _
      (rw same (is_recent-alerted first.session_id _ rank _ _ lower recent))
