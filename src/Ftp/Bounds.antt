-- ===== src/Ftp/Bounds.antt =====
-- What an FTP client can make the login log, whatever it sends and however it fails.
use echidra_oss.Base.{
  ◌≤◌, String, List, [], ◌∷◌, ◌++◌, true, if◌then◌else◌, ◌≡◌, refl, arith, length, All, nonempty,
  Bool-cases, inl, inr, if_either,
}
use echidra_oss.Base.Text.{Text, codes, strip, drop_text}
use echidra_oss.Ftp.{
  send, dialogue, handle, reason_of, read_first_message, first_message, read_rest, nothing_if_late,
  read_command, answer_password, answer_username, starts_binary, is_command, describe_first_message,
  decode_line, answer_user, refuse,
}
use echidra_oss.Network.{
  Outcome, timeout_error, cancelled_error, connection_error, other_error, Connection, Answer,
  returns, raises, Io, ◌>>=◌, await_one, log_line, done, os_error,
}
use echidra_oss.Network.Logs.{Grows, Logs, Logs-bind, await_one-Logs, done-Logs, log_line-Logs}
use echidra_oss.Session.{one_of, end_reasons}

-- A line that is not empty.
abbrev pub IsLine : Text → Type 0
IsLine line = nonempty line ≡ true

send-Logs : (text : String) → Logs IsLine 0 (send text)
unfolding send
send-Logs text c = await_one-Logs IsLine (record c { sent = c.sent ++ codes text ∷ [] })

nothing_if_late-Grows :
    (c : Connection) (r : Answer Text × Connection)
    → Grows IsLine 0 c r.1
    → Grows IsLine 0 c (nothing_if_late r).1
nothing_if_late-Grows c (returns t, d) g = g
nothing_if_late-Grows c (raises timeout_error, d) g = g
nothing_if_late-Grows c (raises cancelled_error, d) g = g
nothing_if_late-Grows c (raises connection_error, d) g = g
nothing_if_late-Grows c (raises os_error, d) g = g
nothing_if_late-Grows c (raises other_error, d) g = g

read_rest-Logs : (first : Text) → Logs IsLine 0 (read_rest first)
read_rest-Logs first c = elim (Bool-cases (starts_binary first)) [
  | inl e ↦ rw e (nothing_if_late-Grows c (await_one c) (await_one-Logs IsLine c))
  | inr e ↦ rw e (await_one-Logs IsLine c)
]

line-Logs : (t : Text) → Logs IsLine 0 (done t)
line-Logs t = done-Logs IsLine t

first_message-Logs : (first : Text) → Logs IsLine 0 (first_message first)
first_message-Logs [] = line-Logs []
first_message-Logs (b ∷ first) =
    Logs-bind IsLine 0 0 (read_rest (b ∷ first))
      (λ rest. done (describe_first_message ((b ∷ first) ++ rest))) (read_rest-Logs (b ∷ first))
      (λ rest. line-Logs (describe_first_message ((b ∷ first) ++ rest)))

read_first_message-Logs : Logs IsLine 0 read_first_message
unfolding read_first_message
read_first_message-Logs =
    Logs-bind IsLine 0 0 await_one first_message (await_one-Logs IsLine) first_message-Logs

read_command-Logs : Logs IsLine 0 read_command
unfolding read_command
read_command-Logs =
    Logs-bind IsLine 0 0 await_one (λ bytes. done (decode_line bytes)) (await_one-Logs IsLine)
      (λ bytes. line-Logs (decode_line bytes))

-- The line logged for the second message.
abbrev password_line : Text → Text
password_line password =
    if is_command "PASS" password then codes "PASS " ++ strip (drop_text 4 password) else password

password_line-IsLine : (password : Text) → IsLine password → IsLine (password_line password)
password_line-IsLine password h = elim (Bool-cases (is_command "PASS" password)) [
  | inl e ↦ rw e refl
  | inr e ↦ rw e h
]

answer_password-Logs : (password : Text) → Logs IsLine 1 (answer_password password)
unfolding answer_password
answer_password-Logs password = elim (Bool-cases (nonempty password)) [
  | inl e ↦ rw e (
      Logs-bind IsLine 1 0 (log_line (password_line password))
        (λ _. send "530 Login incorrect.\r\n" >>= λ _. send "421 Timeout.\r\n")
        (log_line-Logs IsLine _ (password_line-IsLine password e))
        (λ _.
          Logs-bind IsLine 0 0 (send "530 Login incorrect.\r\n") (λ _. send "421 Timeout.\r\n")
            (send-Logs _) (λ _. send-Logs _)))
  | inr e ↦ rw e (λ c. (omega arith, λ p. p))
]

answer_user-Logs : (username : Text) → Logs IsLine 2 (answer_user username)
unfolding answer_user
answer_user-Logs username =
    Logs-bind IsLine 1 1 (log_line (codes "USER " ++ strip (drop_text 4 username)))
      (λ _. send "331 Please specify the password.\r\n" >>= λ _. read_command >>= answer_password)
      (log_line-Logs IsLine _ refl)
      (λ _.
        Logs-bind IsLine 0 1 (send "331 Please specify the password.\r\n")
          (λ _. read_command >>= answer_password) (send-Logs _)
          (λ _.
            Logs-bind IsLine 0 1 read_command answer_password read_command-Logs
              answer_password-Logs))

refuse-Logs : (username : Text) → IsLine username → Logs IsLine 1 (refuse username)
unfolding refuse
refuse-Logs username h =
    Logs-bind IsLine 1 0 (log_line username) (λ _. send "530 Login incorrect.\r\n")
      (log_line-Logs IsLine username h) (λ _. send-Logs _)

more : {A : Type 0} (m : Io A) → Logs IsLine 1 m → Logs IsLine 2 m
more m h c = (omega (arith, (h c).0), (h c).1)

answer_username-Logs : (username : Text) → Logs IsLine 2 (answer_username username)
unfolding answer_username
answer_username-Logs username = elim (Bool-cases (nonempty username)) [
  | inl e ↦ rw e (
      if_either (λ (m : Io Text). Logs IsLine 2 m) (is_command "USER" username)
        (answer_user username) (refuse username) (answer_user-Logs username)
        (more (refuse username) (refuse-Logs username e)))
  | inr e ↦ rw e (λ c. (omega arith, λ p. p))
]

dialogue-Logs : Logs IsLine 2 dialogue
unfolding dialogue
dialogue-Logs =
    Logs-bind IsLine 0 2 (send "220 (vsFTPd 3.0.3)\r\n")
      (λ _. read_first_message >>= answer_username) (send-Logs _)
      (λ _.
        Logs-bind IsLine 0 2 read_first_message answer_username read_first_message-Logs
          answer_username-Logs)

reason_known : (answer : Answer Text) → one_of end_reasons (reason_of answer) ≡ true
reason_known (returns t) = refl
reason_known (raises timeout_error) = refl
reason_known (raises cancelled_error) = refl
reason_known (raises connection_error) = refl
reason_known (raises os_error) = refl
reason_known (raises other_error) = refl

-- Whatever a client sends and however its connection fails, an FTP session ends with one of the
-- end reasons that a session record may have, and logs at most two lines, none of them empty.
pub handle_lines :
    (script : List Outcome)
    → (one_of end_reasons (handle script).0 ≡ true)
      × (length (handle script).1.logged ≤ 2)
      × All IsLine (handle script).1.logged
unfolding handle
handle_lines script =
    let ran = dialogue-Logs (record { script = script; sent = []; logged = [] }) in
    (
      reason_known (dialogue (record { script = script; sent = []; logged = [] })).0,
      ran.0,
      ran.1 tt,
    )
