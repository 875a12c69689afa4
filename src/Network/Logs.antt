-- ===== src/Network/Logs.antt =====
-- How many lines an action on a connection logs, and what holds of each of them.

use echidra_oss.Base.{ℕ, ◌+◌, ◌≤◌, List, [], ◌∷◌, arith, length, All, length-append, All-append}
use echidra_oss.Base.Text.{Text}
use echidra_oss.Network.{
  Outcome, Connection, Answer, returns, raises, Io, and_then, ◌>>=◌, await_one, await_next, done,
  log_line, await_at_most, take_text,
}

module _ (P : Text → Type 0) where
  -- The lines in `d` are at most `n` more than those in `c`, and have a property if those have it.
  abbrev pub Grows : ℕ → Connection → Connection → Type 0
  Grows n c d = (length d.logged ≤ n + length c.logged) × (All P c.logged → All P d.logged)

  abbrev pub Logs : ℕ → {A : Type 0} → Io A → Type 0
  Logs n m = (c : Connection) → Grows n c (m c).1

  Grows-trans : (a b : ℕ) (c d e : Connection) → Grows a c d → Grows b d e → Grows (a + b) c e
  Grows-trans a b c d e (g, h) (k, l) = (omega (arith, g, k), λ p. l (h p))

  and_then-Grows :
      {A B : Type 0} (b : ℕ) (f : A → Io B)
      → ((a : A) → Logs b (f a))
      → (r : Answer A × Connection) → Grows b r.1 (and_then f r).1
  and_then-Grows b f h (returns a, c) = h a c
  and_then-Grows b f h (raises e, c) = (omega arith, λ p. p)

  -- A sequence logs at most what its parts do.
  pub Logs-bind :
      {A B : Type 0} (a b : ℕ) (m : Io A) (f : A → Io B)
      → Logs a m
      → ((x : A) → Logs b (f x))
      → Logs (a + b) (m >>= f)
  Logs-bind a b m f g h c =
      Grows-trans a b c (m c).1 ((m >>= f) c).1 (g c) (and_then-Grows b f h (m c))

  await_next-Grows : (script : List Outcome) (c : Connection) → Grows 0 c (await_next script c).1
  await_next-Grows [] c = (omega arith, λ p. p)
  await_next-Grows (o ∷ script) c = (omega arith, λ p. p)

  pub await_one-Logs : Logs 0 await_one
  unfolding await_one
  await_one-Logs c = await_next-Grows c.script c

  pub done-Logs : {A : Type 0} (a : A) → Logs 0 (done a)
  done-Logs a c = (omega arith, λ p. p)

  pub await_at_most-Logs : (limit : ℕ) → Logs 0 (await_at_most limit)
  unfolding await_at_most
  await_at_most-Logs limit =
      Logs-bind 0 0 await_one (λ bytes. done (take_text limit bytes)) await_one-Logs
        (λ bytes. done-Logs (take_text limit bytes))

  pub log_line-Logs : (line : Text) → P line → Logs 1 (log_line line)
  unfolding log_line
  log_line-Logs line h c = (
    omega (arith, length-append c.logged (line ∷ [])),
    λ p. All-append P c.logged (line ∷ []) p (h, tt),
  )
