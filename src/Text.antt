-- ===== src/Text.antt =====
-- src/str.c: UTF-8 and UTF-16 code units, the conversions between them, and file names.
-- A buffer is the list of its code units from the current pointer to its end.
pub mod Tests
pub mod Utf8
pub mod Utf16
pub mod Convert
