-- ===== src/Datetime.antt =====
-- src/datetime.c: Win32 file times (100 ns ticks since 1601 in two 32-bit halves) and Unix times.
-- `long` has 32 bits on Windows; a value is its bit pattern, which `(uint64_t)` extends by the sign.
pub mod Tests
pub mod RoundTrip
use foreign_linux.Base.{ℕ, ◌+◌, ◌-◌, ◌*◌, ◌/◌, ◌%◌, ltb, ◌==◌, if◌then◌else◌}

pub record Filetime : Type 0 where
  pub low_date_time : ℕ
  pub high_date_time : ℕ

pub record Timeval : Type 0 where
  pub tv_sec : ℕ
  pub tv_usec : ℕ

pub record Timespec : Type 0 where
  pub tv_sec : ℕ
  pub tv_nsec : ℕ

abbrev pub wrap32 : ℕ → ℕ
wrap32 n = n % 4294967296

-- The cast of a `long` to `uint64_t`.
abbrev pub extend : ℕ → ℕ
extend n = if ltb n 2147483648 then n else n + 18446744069414584320

abbrev pub wrap64 : ℕ → ℕ
wrap64 n = n % 18446744073709551616

-- `(uint64_t)-1`
abbrev pub out_of_range : ℕ
out_of_range = 18446744073709551615

abbrev pub ticks_to_unix_epoch : ℕ
ticks_to_unix_epoch = 116444736000000000

abbrev pub filetime_to_unix : Filetime → ℕ
filetime_to_unix filetime =
    let ticks = wrap64 (filetime.high_date_time * 4294967296 + filetime.low_date_time) in
    if ltb ticks ticks_to_unix_epoch
    then out_of_range
    else wrap64 ((ticks - ticks_to_unix_epoch) * 100)

pub filetime_to_unix_sec : Filetime → ℕ
filetime_to_unix_sec filetime =
    let nsec = filetime_to_unix filetime in
    if nsec == out_of_range then out_of_range else nsec / 1000000000

pub filetime_to_unix_nsec : Filetime → ℕ
filetime_to_unix_nsec filetime =
    let nsec = filetime_to_unix filetime in
    if nsec == out_of_range then out_of_range else nsec % 1000000000

pub filetime_to_unix_timeval : Filetime → Timeval
filetime_to_unix_timeval filetime =
    let nsec = filetime_to_unix filetime in
    record { tv_sec = wrap32 (nsec / 1000000000); tv_usec = wrap32 (nsec % 1000000000 / 1000) }

pub filetime_to_unix_timespec : Filetime → Timespec
filetime_to_unix_timespec filetime =
    let nsec = filetime_to_unix filetime in
    record { tv_sec = wrap32 (nsec / 1000000000); tv_nsec = wrap32 (nsec % 1000000000) }

abbrev pub unix_time_to_filetime : ℕ → Filetime
unix_time_to_filetime nsec =
    let ticks = wrap64 (nsec / 100 + ticks_to_unix_epoch) in
    record { low_date_time = ticks % 4294967296; high_date_time = ticks / 4294967296 }

pub unix_timeval_to_filetime : Timeval → Filetime
unix_timeval_to_filetime time =
    unix_time_to_filetime (wrap64 (extend time.tv_sec * 1000000000 + extend time.tv_usec * 1000))

pub unix_timespec_to_filetime : Timespec → Filetime
unix_timespec_to_filetime time =
    unix_time_to_filetime (wrap64 (extend time.tv_sec * 1000000000 + extend time.tv_nsec))

pub unix_timeval_to_unix_timespec : Timeval → Timespec
unix_timeval_to_unix_timespec timeval = record {
  tv_sec = timeval.tv_sec;
  tv_nsec = wrap32 (timeval.tv_usec * 1000);
}
