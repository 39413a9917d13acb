-- ===== src/Libc.antt =====
-- What zsr uses of the C standard library: character classes, `strncmp` with a literal, `fgets` in
-- a loop, some conversions of `sscanf`, and `%lu` of `printf`. Nothing here is
-- translated from the repository.
pub mod Text
pub mod Lines
pub mod Scan
pub mod Words
pub mod Tokens
pub mod Print
