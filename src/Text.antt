-- ===== src/Text.antt =====
-- src/string and src/fs/pparser.c: C strings, and the parsing of paths.
pub mod Cstring
pub mod Path
