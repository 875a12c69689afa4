-- ===== src/Network.antt =====
-- honeypot/network: the connection that a handler has. What every await of the connection brings
-- stands in a script, one outcome for each in order; after its end reads are at the end of the
-- stream and all else succeeds. The commands that are logged get their times in Session.Protocol.
pub mod Logs
use echidra_oss.Base.{ℕ, zero, suc, List, [], ◌∷◌, ◌++◌}
use echidra_oss.Base.Text.{Text}

-- What an await brings: bytes, or for a read of nothing else its success; or an exception.
pub data Outcome : Type 0 where
  arrived : Text → Outcome
  timed_out cancelled reset broken failed : Outcome

pub data Raised : Type 0 where
  timeout_error cancelled_error connection_error os_error other_error : Raised

-- The texts sent, in order, and the commands logged.
pub record Connection : Type 0 where
  pub script : List Outcome
  pub sent : List Text
  pub logged : List Text

pub data Answer (A : Type 0) : Type 0 where
  returns : A → Answer A
  raises : Raised → Answer A

abbrev pub Io : Type 0 → Type 0
Io A = Connection → Answer A × Connection

abbrev pub and_then : {A B : Type 0} → (A → Io B) → Answer A × Connection → Answer B × Connection
and_then f (returns a, c) = f a c
and_then f (raises e, c) = (raises e, c)

infixl 5 ◌>>=◌
abbrev pub ◌>>=◌ : {A B : Type 0} → Io A → (A → Io B) → Io B
(m >>= f) c = and_then f (m c)

abbrev pub outcome_of : Outcome → Answer Text
outcome_of (arrived bytes) = returns bytes
outcome_of timed_out = raises timeout_error
outcome_of cancelled = raises cancelled_error
outcome_of reset = raises connection_error
outcome_of broken = raises os_error
outcome_of failed = raises other_error

abbrev pub await_next : List Outcome → Connection → Answer Text × Connection
await_next [] c = (returns [], c)
await_next (o ∷ script) c = (outcome_of o, record c { script = script })

-- One await.
unfoldable pub await_one : Io Text
await_one c = await_next c.script c

abbrev pub done : {A : Type 0} → A → Io A
done a c = (returns a, c)

-- The first bytes of a text, as many as a number at most.
unfoldable pub take_text : ℕ → Text → Text
take_text zero t = []
take_text (suc n) [] = []
take_text (suc n) (c ∷ t) = c ∷ take_text n t

-- A `read(n)`, which brings at most `n` bytes: the script has further bytes of the client where a
-- later read brings them.
unfoldable pub await_at_most : ℕ → Io Text
await_at_most limit = await_one >>= λ bytes. done (take_text limit bytes)

-- `session.log_command`, where the text is not empty.
unfoldable pub log_line : Text → Io Text
log_line line c = (returns [], record c { logged = c.logged ++ line ∷ [] })
