-- ===== src/Format.antt =====
-- src/vsprintf.c, src/vsscanf.c and the helpers of src/str.c over them: formatted output and input.
-- A string is the list of its bytes before the terminating zero.
pub mod Tests
pub mod Number
pub mod Print
pub mod Scan
pub mod Atoi
pub mod Strip
