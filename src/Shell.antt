-- ===== src/Shell.antt =====
-- honeypot/core/engine.py: the fake shell, so far how it takes a line of input apart.
pub mod Split
pub mod Redirects
pub mod Quiet
pub mod Joined
mod Tests
