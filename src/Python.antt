-- ===== src/Python.antt =====
-- What the source uses of Python's standard library: `re`, `shlex`, `urllib.parse`, `base64`, the
-- UTF-8 codec and the methods that split a text. Texts are lists of code points.
pub mod Regex
pub mod Split
pub mod Shlex
pub mod Utf8
pub mod Url
pub mod Base64
mod Tests
