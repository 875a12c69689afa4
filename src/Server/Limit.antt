-- ===== src/Server/Limit.antt =====
-- The open connections of a server never exceed its limit.
use echidra_oss.Base.{
  ℕ, ◌≤◌, ◌<◌, Bool, true, false, not, ◌≡◌, arith, leb, Bool-cases, inl, inr, length,
  length-keep-le, All, All-keep, All-map, ◌==◌,
}
use echidra_oss.Server.{ProtocolServer, new_server, handle_client, discard}

-- What can happen: a client connects, or a task that was started ends.
pub data Step (limit : ℕ) : ProtocolServer → ProtocolServer → Type 0 where
  connects :
      (constructs : Bool) (s : ProtocolServer) → Step limit s (handle_client limit constructs s)
  ends : (task : ℕ) (s : ProtocolServer) → Step limit s (discard task s)

-- The states that a new server can come to.
pub data Reachable (limit : ℕ) : ProtocolServer → Type 0 where
  starts : Reachable limit new_server
  steps : {s t : ProtocolServer} → Reachable limit s → Step limit s t → Reachable limit t

-- The tasks are within the limit, and older than the next.
pub record IsWithin (limit : ℕ) (s : ProtocolServer) : Type 0 where
  pub few : length s.tasks ≤ limit
  pub older : All (λ t. t < s.next_task) s.tasks

room : (limit n : ℕ) → leb limit n ≡ false → n < limit
room limit n h = ground arith

Step-IsWithin :
    (limit : ℕ) {s t : ProtocolServer} → Step limit s t → IsWithin limit s → IsWithin limit t
unfolding handle_client discard
Step-IsWithin limit (Step.connects true s) g = elim (Bool-cases (leb limit (length s.tasks))) [
  | inl e ↦ rw e (record { few = g.few; older = g.older })
  | inr e ↦ rw e (record {
    few = room limit (length s.tasks) e;
    older = (omega arith, All-map s.tasks (λ t h. omega (arith, h)) g.older);
  })
]
Step-IsWithin limit (Step.connects false s) g = elim (Bool-cases (leb limit (length s.tasks))) [
  | inl e ↦ rw e (record { few = g.few; older = g.older })
  | inr e ↦ rw e (record { few = g.few; older = g.older })
]
Step-IsWithin limit (Step.ends task s) g = record {
  few = omega (arith, g.few, length-keep-le (λ t. not (t == task)) s.tasks);
  older = All-keep (λ t. t < s.next_task) (λ t. not (t == task)) s.tasks g.older;
}

-- In every state that a server can come to, whatever clients do and in whatever order tasks end,
-- it has at most as many tasks as its limit, each with a number that is not used again.
pub Reachable-IsWithin : (limit : ℕ) {s : ProtocolServer} → Reachable limit s → IsWithin limit s
Reachable-IsWithin limit Reachable.starts = record { few = omega arith; older = tt }
Reachable-IsWithin limit (Reachable.steps r p) = Step-IsWithin limit p (Reachable-IsWithin limit r)
