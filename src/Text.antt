-- ===== src/Text.antt =====
-- source/string.c: the helpers on C strings. A string is the list of its bytes before the NUL.
pub mod Base
pub mod Chars
pub mod Pattern
pub mod Path
pub mod Comma
