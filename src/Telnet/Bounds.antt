-- ===== src/Telnet/Bounds.antt =====
-- What a Telnet client can make the login log, whatever it sends and however it fails.
use echidra_oss.Base.{
  ℕ, zero, suc, ◌+◌, ◌*◌, ◌≤◌, List, [], ◌∷◌, ◌++◌, map, Bool, true, false, Option, none, some, ◌≡◌,
  ◌⊎◌, inl, inr, refl, arith, length, All, nonempty, ◌||◌, Bool-cases, String, map,
}
use echidra_oss.Base.Text.{Text, codes, strip}
use echidra_oss.Session.{one_of, end_reasons}
use echidra_oss.Telnet.{latin_1, send, max_login_attempts}
use echidra_oss.Network.{
  done, Outcome, timeout_error, cancelled_error, connection_error, other_error, Connection, Answer,
  returns, raises, Io, ◌>>=◌, await_one, log_line, os_error, await_at_most,
}
use echidra_oss.Network.Logs.{
  Grows, Logs, Logs-bind, await_one-Logs, done-Logs, log_line-Logs, await_at_most-Logs,
}
use mathlib.Core.Path.{subst}
use echidra_oss.Telnet.Line.{Line, Drained, parse_line, has_line_end}
use echidra_oss.Telnet.Login.{
  echo_line, with_more, read_line, log_stripped, reject, after_password, after_username, attempt,
  attempts, and_again, drain_iac, reply_to, forgive, dialogue, reason_of, handle,
}

-- A user name or a password with a text.
abbrev pub IsCredential : Text → Type 0
IsCredential line =
    (t : Text) × (nonempty t ≡ true)
    × ((line ≡ codes "login: " ++ t) ⊎ (line ≡ codes "password: " ++ t))

send-Logs : (t : Text) → Logs IsCredential 0 (send t)
unfolding send
send-Logs t c = await_one-Logs IsCredential (record c { sent = c.sent ++ map latin_1 t ∷ [] })

echo_line-Logs : (echo : Bool) (line : Line) → Logs IsCredential 0 (echo_line echo line)
unfolding echo_line
echo_line-Logs false line = λ c. (omega arith, λ p. p)
echo_line-Logs true line = elim (Bool-cases line.ended) [
  | inl e ↦ rw e (
      Logs-bind IsCredential 0 0 (send (codes "\r\n")) _ (send-Logs (codes "\r\n"))
        (λ _ c. (omega arith, λ p. p)))
  | inr e ↦ rw e (λ c. (omega arith, λ p. p))
]

with_more-Logs : (echo : Bool) (bytes more : Text) → Logs IsCredential 0 (with_more echo bytes more)
with_more-Logs echo bytes more = elim (Bool-cases (nonempty more || nonempty bytes)) [
  | inl e ↦ rw e (echo_line-Logs echo (parse_line (bytes ++ more)))
  | inr e ↦ rw e (λ c. (omega arith, λ p. p))
]

read_line-Logs : (echo : Bool) (initial : Text) → Logs IsCredential 0 (read_line echo initial)
unfolding read_line
read_line-Logs echo initial = elim (Bool-cases (has_line_end initial)) [
  | inl e ↦ rw e (echo_line-Logs echo (parse_line initial))
  | inr e ↦ rw e (
      Logs-bind IsCredential 0 0 await_one (with_more echo initial) (await_one-Logs IsCredential)
        (with_more-Logs echo initial))
]

log-IsCredential :
    (prefix : String) (t : Text)
    → ((line : Text) → nonempty t ≡ true → line ≡ codes prefix ++ t → IsCredential line)
    → nonempty t ≡ true
    → Logs IsCredential 1 (log_line (codes prefix ++ t))
log-IsCredential prefix t f h = log_line-Logs IsCredential (codes prefix ++ t) (f _ h refl)

log_stripped-Logs :
    (prefix : String) (text : Text)
    → ((line t : Text) → nonempty t ≡ true → line ≡ codes prefix ++ t → IsCredential line)
    → Logs IsCredential 1 (log_stripped prefix text)
unfolding log_stripped
log_stripped-Logs prefix text f = elim (Bool-cases (nonempty (strip text))) [
  | inl e ↦ rw e (log-IsCredential prefix (strip text) (λ line. f line (strip text)) e)
  | inr e ↦ rw e (λ c. (omega arith, λ p. p))
]

reject-Logs : Logs IsCredential 0 reject
unfolding reject
reject-Logs =
    Logs-bind IsCredential 0 0 await_one _ (await_one-Logs IsCredential) (λ _. send-Logs _)

after_password-Logs : (read : Option Text × Text) → Logs IsCredential 1 (after_password read)
after_password-Logs (none, rest) = λ c. (omega arith, λ p. p)
after_password-Logs (some password, rest) =
    Logs-bind IsCredential 1 0 (log_stripped "password: " password)
      (λ _. reject >>= λ _. done (some rest))
      (log_stripped-Logs "password: " password (λ line t h e. (t, h, inr e)))
      (λ _.
        Logs-bind IsCredential 0 0 reject (λ _. done (some rest)) reject-Logs
          (λ _ c. (omega arith, λ p. p)))

after_username-Logs : (read : Option Text × Text) → Logs IsCredential 2 (after_username read)
after_username-Logs (none, rest) = λ c. (omega arith, λ p. p)
after_username-Logs (some username, rest) =
    Logs-bind IsCredential 1 1 (log_stripped "login: " username)
      (λ _. send (codes "Password: ") >>= λ _. read_line false rest >>= after_password)
      (log_stripped-Logs "login: " username (λ line t h e. (t, h, inl e)))
      (λ _.
        Logs-bind IsCredential 0 1 (send (codes "Password: "))
          (λ _. read_line false rest >>= after_password) (send-Logs _)
          (λ _.
            Logs-bind IsCredential 0 1 (read_line false rest) after_password
              (read_line-Logs false rest) after_password-Logs))

attempt-Logs : (prompt leftover : Text) → Logs IsCredential 2 (attempt prompt leftover)
unfolding attempt
attempt-Logs prompt leftover =
    Logs-bind IsCredential 0 2 (send prompt) (λ _. read_line true leftover >>= after_username)
      (send-Logs _)
      (λ _.
        Logs-bind IsCredential 0 2 (read_line true leftover) after_username
          (read_line-Logs true leftover) after_username-Logs)

and_again-Logs :
    (n : ℕ) (again : Text → Io Text) (rest : Option Text)
    → ((t : Text) → Logs IsCredential n (again t))
    → Logs IsCredential n (and_again again rest)
and_again-Logs n again none h = λ c. (omega arith, λ p. p)
and_again-Logs n again (some rest) h = h rest

twice : (n : ℕ) → 2 + 2 * n ≡ 2 * suc n
twice n = omega arith

attempts-Logs :
    (n : ℕ) (prompt leftover : Text) → Logs IsCredential (2 * n) (attempts n prompt leftover)
unfolding attempts
attempts-Logs zero prompt leftover = λ c. (omega arith, λ p. p)
attempts-Logs (suc n) prompt leftover =
    subst (λ k. Logs IsCredential k (attempt prompt leftover >>= and_again (attempts n prompt)))
      (twice n)
      (Logs-bind IsCredential 2 (2 * n) (attempt prompt leftover) (and_again (attempts n prompt))
        (attempt-Logs prompt leftover)
        (λ rest. and_again-Logs (2 * n) (attempts n prompt) rest (attempts-Logs n prompt)))

forgive-Grows :
    (n : ℕ) (c : Connection) (r : Answer Text × Connection)
    → Grows IsCredential n c r.1
    → Grows IsCredential n c (forgive r).1
forgive-Grows n c (returns t, d) g = g
forgive-Grows n c (raises timeout_error, d) g = g
forgive-Grows n c (raises cancelled_error, d) g = g
forgive-Grows n c (raises connection_error, d) g = g
forgive-Grows n c (raises os_error, d) g = g
forgive-Grows n c (raises other_error, d) g = g

reply_to-Logs : (d : Drained) → Logs IsCredential 0 (reply_to d)
unfolding reply_to
reply_to-Logs d = elim (Bool-cases (nonempty d.reply)) [
  | inl e ↦ rw e (λ c.
      Logs-bind IsCredential 0 0 (λ c'. forgive (send d.reply c')) (λ _. done d.leftover)
        (λ c'. forgive-Grows 0 c' (send d.reply c') (send-Logs d.reply c'))
        (λ _. done-Logs IsCredential d.leftover) c)
  | inr e ↦ rw e (done-Logs IsCredential d.leftover)
]

drain_iac-Logs : Logs IsCredential 0 drain_iac
unfolding drain_iac
drain_iac-Logs =
    Logs-bind IsCredential 0 0 (λ c. forgive (await_at_most 64 c)) _
      (λ c. forgive-Grows 0 c (await_at_most 64 c) (await_at_most-Logs IsCredential 64 c))
      (λ bytes. reply_to-Logs _)

dialogue-Logs : (banner prompt : Text) → Logs IsCredential 10 (dialogue banner prompt)
unfolding dialogue
dialogue-Logs banner prompt =
    Logs-bind IsCredential 0 10 drain_iac
      (λ leftover. send banner >>= λ _. attempts max_login_attempts prompt leftover) drain_iac-Logs
      (λ leftover.
        Logs-bind IsCredential 0 10 (send banner) (λ _. attempts max_login_attempts prompt leftover)
          (send-Logs _) (λ _. attempts-Logs 5 prompt leftover))

reason_of-known : (a : Answer Text) → one_of end_reasons (reason_of a) ≡ true
reason_of-known (returns t) = refl
reason_of-known (raises timeout_error) = refl
reason_of-known (raises cancelled_error) = refl
reason_of-known (raises connection_error) = refl
reason_of-known (raises os_error) = refl
reason_of-known (raises other_error) = refl

-- Whatever a client sends and however its connection fails, a Telnet session ends with one of the
-- end reasons that a session record may have, and logs at most ten lines, each of them a user name
-- or a password that is not empty.
pub handle_bounds :
    (banner prompt : Text) (script : List Outcome)
    → (one_of end_reasons (handle banner prompt script).0 ≡ true)
      × (length (handle banner prompt script).1.logged ≤ 10)
      × All IsCredential (handle banner prompt script).1.logged
unfolding handle
handle_bounds banner prompt script =
    let start : Connection = record { script = script; sent = []; logged = [] } in
    (
      reason_of-known (dialogue banner prompt start).0,
      (dialogue-Logs banner prompt start).0,
      (dialogue-Logs banner prompt start).1 tt,
    )
