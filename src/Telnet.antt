-- ===== src/Telnet.antt =====
-- honeypot/network/telnet_handler.py: the fake Telnet login.
pub mod Line
pub mod Login
pub mod Bounds
pub mod Burst
mod Tests
use echidra_oss.Network.{Io, await_one}
use echidra_oss.Base.{
  ℕ, zero, suc, ◌+◌, List, [], ◌∷◌, ◌++◌, Bool, true, false, not, ◌&&◌, ◌||◌, Option, none, some,
  if◌then◌else◌, leb, ◌==◌, map, length, nonempty, any,
}
use echidra_oss.Base.Text.{Text, codes, strip}
use mathlib.Core.List.{reverse}

-- `text.encode("latin-1", errors="replace")`, of one character.
abbrev pub latin_1 : ℕ → ℕ
latin_1 c = if leb c 255 then c else b'?'

-- `_send`
unfoldable pub send : Text → Io Text
send text c = await_one (record c { sent = c.sent ++ map latin_1 text ∷ [] })

-- `max_login_attempts`
abbrev pub max_login_attempts : ℕ
max_login_attempts = 5
