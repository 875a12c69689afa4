-- ===== src/Telnet/Line.antt =====
-- honeypot/network/telnet_handler.py: the bytes of one line, and of an option negotiation.
use echidra_oss.Base.{
  ℕ, zero, suc, [], ◌∷◌, ◌++◌, Bool, true, false, ◌||◌, if◌then◌else◌, leb, ◌==◌, length,
}
use echidra_oss.Base.Text.{Text}
use mathlib.Core.List.{reverse}

-- A line, the bytes behind it, and whether a line end was seen.
pub record Line : Type 0 where
  pub text : Text
  pub rest : Text
  pub ended : Bool

abbrev pub erase_last : Text → Text
erase_last [] = []
erase_last (c ∷ line) = line

abbrev pub swallow_newline : ℕ → Text → Text
swallow_newline byte [] = []
swallow_newline byte (c ∷ bytes) =
    if byte == 13 then (if c == 10 then bytes else c ∷ bytes) else c ∷ bytes

abbrev pub broken_off : Text → Line
broken_off line = record { text = reverse line; rest = []; ended = false }

-- The loop of `_read_line`, with the bytes of a negotiation still to skip and the line so far in
-- reverse.
unfoldable pub parse_from : ℕ → Text → Text → Line
parse_from skip line [] = broken_off line
parse_from (suc skip) line (byte ∷ bytes) = parse_from skip line bytes
parse_from zero line (byte ∷ bytes) =
    let negotiated = parse_from 2 line bytes in
    let erased = parse_from 0 (erase_last line) bytes in
    let longer = parse_from 0 (byte ∷ line) bytes in
    if byte == 255
    then (if leb 2 (length bytes) then negotiated else broken_off line)
    else if byte == 8 || byte == 127
    then erased
    else if byte == 13 || byte == 10
    then record { text = reverse line; rest = swallow_newline byte bytes; ended = true }
    else longer

unfoldable pub parse_line : Text → Line
parse_line bytes = parse_from 0 [] bytes

-- `b"\r" in data or b"\n" in data`
unfoldable pub has_line_end : Text → Bool
has_line_end [] = false
has_line_end (c ∷ bytes) = c == 13 || c == 10 || has_line_end bytes

-- What `_drain_iac` makes of its read: the answer to the options, and the other bytes.
pub record Drained : Type 0 where
  pub reply : Text
  pub leftover : Text

-- The answer to one option: IAC WONT to DO, IAC DONT to WILL.
abbrev pub answer_to : Text → Text
answer_to (command ∷ option ∷ _) =
    if command == 253
    then 255 ∷ 252 ∷ option ∷ []
    else if command == 251
    then 255 ∷ 254 ∷ option ∷ []
    else []
answer_to _ = []

-- The loop of `_drain_iac`.
unfoldable pub drain_from : ℕ → Drained → Text → Drained
drain_from skip d [] = d
drain_from (suc skip) d (byte ∷ bytes) = drain_from skip d bytes
drain_from zero d (byte ∷ bytes) =
    let negotiated = drain_from 2 (record d { reply = d.reply ++ answer_to bytes }) bytes in
    let kept = drain_from 0 (record d { leftover = d.leftover ++ byte ∷ [] }) bytes in
    if byte == 255 then (if leb 2 (length bytes) then negotiated else d) else kept
