-- ===== src/Datetime/Tests.antt =====
-- src/datetime.c at one second and 234 nanoseconds.
use foreign_linux.Base.{◌≡◌, arith}
use foreign_linux.Datetime.{filetime_to_unix_timeval, unix_timeval_to_filetime}
use foreign_linux.Datetime.RoundTrip.{filetime_to_unix_timeval-unix_timeval_to_filetime}

filetime_to_unix_timeval-unix_timeval_to_filetime_example :
    filetime_to_unix_timeval (unix_timeval_to_filetime (record { tv_sec = 1; tv_usec = 234 }))
    ≡ record { tv_sec = 1; tv_usec = 234 }
filetime_to_unix_timeval-unix_timeval_to_filetime_example =
    filetime_to_unix_timeval-unix_timeval_to_filetime 1 234 (omega arith) (omega arith)
