-- ===== src/Session/Accepted.antt =====
-- Lemmas on the checks of a record, as the session behind it grows.
use echidra_oss.Base.{
  ◌&&◌, ◌==◌, ◌-◌, ℕ, ◌≤◌, String, List, [], ◌∷◌, ◌++◌, Bool, true, false, ◌||◌, Option, some, ◌≡◌,
  refl, arith, str_eq, str_eq_iff, all, leb, none, length,
}
use echidra_oss.Base.Text.{Text, codes}
use echidra_oss.Session.{
  Peer, peer_ip_of, peer_port_of, if_set, is_port, ssh_end_stages, is_near, is_safe_path,
  CommandEvent, commands_fit, not_before, are_distinct, one_of,
}

pub leb_intro : (a b : ℕ) → a ≤ b → leb a b ≡ true
leb_intro a b h = ground arith

-- A command at the current time fits behind those before.
pub commands_fit-append :
    (started now time : ℕ) (previous : Option ℕ) (commands : List CommandEvent) (cmd : Text)
    → started ≤ now
    → now ≤ time
    → not_before previous time ≡ true
    → commands_fit started now previous commands ≡ true
    → commands_fit started time previous (commands ++ record { cmd = cmd; timestamp = time } ∷ [])
      ≡ true
unfolding commands_fit
commands_fit-append started now time previous [] cmd h k p f = ground arith
commands_fit-append started now time previous (c ∷ commands) cmd h k p f =
    ground (arith, commands_fit-append started now time (some c.timestamp) commands cmd h k)

-- The commands still fit when time passes.
pub commands_fit-later :
    (started now time : ℕ) (previous : Option ℕ) (commands : List CommandEvent)
    → now ≤ time
    → commands_fit started now previous commands ≡ true
    → commands_fit started time previous commands ≡ true
unfolding commands_fit
commands_fit-later started now time previous [] k f = refl
commands_fit-later started now time previous (c ∷ commands) k f =
    ground (arith, commands_fit-later started now time (some c.timestamp) commands k)

pub all-append {ℓ} :
    {A : Type ℓ} (test : A → Bool) (xs : List A) (x : A)
    → all test xs ≡ true
    → test x ≡ true
    → all test (xs ++ x ∷ []) ≡ true
all-append test [] x h k = ground arith
all-append test (y ∷ xs) x h k = ground (arith, all-append test xs x)

str_eq-sym : (s t : String) → str_eq s t ≡ str_eq t s
str_eq-sym s t = ground (arith, str_eq_iff s t, str_eq_iff t s)

one_of-append :
    (paths : List String) (p q : String)
    → one_of (paths ++ p ∷ []) q ≡ (one_of paths q || str_eq q p)
one_of-append [] p q = ground arith
one_of-append (r ∷ paths) p q = ground (arith, one_of-append paths p q)

pub are_distinct-append :
    (paths : List String) (p : String)
    → are_distinct paths ≡ true
    → one_of paths p ≡ false
    → are_distinct (paths ++ p ∷ []) ≡ true
unfolding are_distinct
are_distinct-append [] p h k = refl
are_distinct-append (q ∷ paths) p h k =
    ground (arith, one_of-append paths p q, str_eq-sym p q, are_distinct-append paths p)

-- The checks on the whole record, from its parts.
pub is_consistent_parts :
    (started ended count : ℕ) (commands : List CommandEvent) (decoys : List String)
    → started ≤ ended
    → commands_fit started ended none commands ≡ true
    → count ≡ length commands
    → are_distinct decoys ≡ true
    → all is_safe_path decoys ≡ true
    → (true
        && leb started ended
        && is_near (ended - started) (ended - started)
        && commands_fit started ended none commands
        && count == length commands
        && are_distinct decoys
        && all is_safe_path decoys)
      ≡ true
is_consistent_parts started ended count commands decoys h f c d p = ground arith

-- The times do not fall, from one time to another.
abbrev pub Rises {ℓ} : {A : Type ℓ} → ℕ → List (ℕ × A) → ℕ → Type 0
Rises now [] last = now ≤ last
Rises now ((time, a) ∷ events) last = (now ≤ time) × Rises time events last

-- What the checks ask of the data that a session has from its start.
pub record IsIdentified (is_ip is_uuid : String → Bool) (session_id : String) (peer : Peer)
    (persona_id : String) (client_version end_stage end_error : Option String) : Type 0 where
  pub session : is_uuid session_id ≡ true
  pub ip : if_set is_ip (peer_ip_of peer) ≡ true
  pub port : if_set is_port (peer_port_of peer) ≡ true
  pub persona : str_eq persona_id "" ≡ false
  pub version : if_set (λ t. leb (length (codes t)) 255) client_version ≡ true
  pub stage : if_set (one_of ssh_end_stages) end_stage ≡ true
  pub error : if_set (λ t. leb (length (codes t)) 1000) end_error ≡ true
