-- ===== src/Alerts/Sessions.antt =====
-- The ranks at which sessions have alerted: bounded, and a session alerts once per level.
use echidra_oss.Base.{
  ℕ, ◌≤◌, ◌<◌, String, [], ◌∷◌, ◌++◌, true, false, ◌≡◌, arith, Option, none, some, if_either,
  length, ltb,
}
use echidra_oss.Base.Dict.{
  Dict, lookup, string_eq, IsKeyed, lookup-erase_self, erase-IsKeyed, lookup-append_last,
  append_last-IsKeyed,
}
use echidra_oss.Alerts.{
  Alert, Grouping, max_tracked_sessions, pop_oldest, track, risk_rank, already_alerted,
  alert_decision, decide_tracked, decide_group, prune,
}

-- The sessions tracked are within the limit, and each stands once.
pub record IsTracked (ranks : Dict String ℕ) : Type 0 where
  pub bounded : length ranks ≤ 10_000
  pub keyed : IsKeyed ranks

length-pop_oldest : (limit : ℕ) (d : Dict String ℕ) → length (pop_oldest limit d) ≤ limit
unfolding pop_oldest
length-pop_oldest limit [] = omega arith
length-pop_oldest limit (e ∷ d) = ground (arith, length-pop_oldest limit d)

pop_oldest-IsKeyed : (limit : ℕ) (d : Dict String ℕ) → IsKeyed d → IsKeyed (pop_oldest limit d)
unfolding pop_oldest
pop_oldest-IsKeyed limit [] h = tt
pop_oldest-IsKeyed limit (e ∷ d) h =
    if_either IsKeyed (ltb limit (length (e ∷ d))) _ _ (pop_oldest-IsKeyed limit d h.1) h

-- The newest session is never dropped.
pop_oldest-last :
    (limit : ℕ) (d : Dict String ℕ) (k : String) (v : ℕ)
    → 0 < limit
    → lookup k d ≡ none
    → lookup k (pop_oldest limit (d ++ (k, v) ∷ [])) ≡ some v
unfolding pop_oldest lookup
pop_oldest-last limit [] k v pos h = ground (arith, lookup-append_last k v [] h)
pop_oldest-last limit (e ∷ d) k v pos h =
    ground (arith, lookup-append_last k v (e ∷ d) h, pop_oldest-last limit d k v pos)

pub track-IsTracked :
    (k : String) (v : ℕ) (ranks : Dict String ℕ) → IsTracked ranks → IsTracked (track k v ranks)
unfolding track
track-IsTracked k v ranks h =
    let gone = lookup-erase_self k ranks h.keyed in
    record {
      bounded = length-pop_oldest max_tracked_sessions _;
      keyed =
          pop_oldest-IsKeyed max_tracked_sessions _
            (append_last-IsKeyed k v _ (erase-IsKeyed k ranks h.keyed) gone);
    }

pub lookup-track :
    (k : String) (v : ℕ) (ranks : Dict String ℕ)
    → IsTracked ranks
    → lookup k (track k v ranks) ≡ some v
unfolding track
lookup-track k v ranks h =
    pop_oldest-last max_tracked_sessions _ k v (omega arith) (lookup-erase_self k ranks h.keyed)

pub decide_tracked-ranks :
    (window now utc : ℕ) (alert : Alert) (s : Grouping)
    → (decide_tracked window now utc alert s).1.session_ranks ≡ s.session_ranks
unfolding decide_tracked decide_group prune
decide_tracked-ranks window now utc alert s = ground arith

-- Every decision keeps the ranks well formed: at most 10,000 sessions, each once.
pub alert_decision-IsTracked :
    (window now utc : ℕ) (alert : Alert) (s : Grouping)
    → IsTracked s.session_ranks
    → IsTracked (alert_decision window now utc alert s).1.session_ranks
unfolding alert_decision
alert_decision-IsTracked window now utc alert s h =
    if_either {A = Option ℕ × Grouping} (λ r. IsTracked r.1.session_ranks)
      (already_alerted (risk_rank alert.risk_level) (lookup alert.session_id s.session_ranks))
      (none, s) _ h
      (rw (decide_tracked-ranks window now utc alert _) (track-IsTracked _ _ s.session_ranks h))

pub decide_new-ranks :
    (window now utc : ℕ) (alert : Alert) (s : Grouping)
    → already_alerted (risk_rank alert.risk_level) (lookup alert.session_id s.session_ranks) ≡ false
    → (alert_decision window now utc alert s).1.session_ranks
      ≡ track alert.session_id (risk_rank alert.risk_level) s.session_ranks
unfolding alert_decision
decide_new-ranks window now utc alert s new = rw new (decide_tracked-ranks window now utc alert _)

pub already_alerted-le :
    (low high : ℕ) (found : Option ℕ)
    → low ≤ high
    → already_alerted high found ≡ true
    → already_alerted low found ≡ true
already_alerted-le low high none h e = e
already_alerted-le low high (some previous) h e = ground arith

pub repeat-unchanged :
    (window now utc : ℕ) (alert : Alert) (s : Grouping)
    → already_alerted (risk_rank alert.risk_level) (lookup alert.session_id s.session_ranks) ≡ true
    → alert_decision window now utc alert s ≡ (none, s)
unfolding alert_decision
repeat-unchanged window now utc alert s e = rw e
