-- ===== src/Datetime/RoundTrip.antt =====
-- src/datetime.c: a Unix time survives the way through a file time, to the tick.
use foreign_linux.Base.{ℕ, ◌+◌, ◌-◌, ◌*◌, ◌/◌, ◌%◌, ◌<◌, ◌≡◌, refl, arith}
use foreign_linux.Datetime.{
  Filetime, wrap32, extend, wrap64, out_of_range, ticks_to_unix_epoch, filetime_to_unix,
  filetime_to_unix_sec, filetime_to_unix_nsec, filetime_to_unix_timeval, filetime_to_unix_timespec,
  unix_time_to_filetime, unix_timeval_to_filetime, unix_timespec_to_filetime,
}

halves : (t : ℕ) → t / 4294967296 * 4294967296 + t % 4294967296 ≡ t
halves t = omega arith

filetime_to_unix-unix_time_to_filetime :
    (nsec : ℕ)
    → nsec < 18446744073709551616
    → filetime_to_unix (unix_time_to_filetime nsec) ≡ nsec / 100 * 100
filetime_to_unix-unix_time_to_filetime nsec h =
    let t : ℕ = nsec / 100 + ticks_to_unix_epoch in
    let e : wrap64 t ≡ t = omega arith in ground (arith, e, halves t)

-- A time of `sec` seconds and `nsec` nanoseconds, before 2^31 seconds, comes back with the
-- nanoseconds cut to a multiple of 100, the ticks of a file time.
pub filetime_to_unix_timespec-unix_timespec_to_filetime :
    (sec nsec : ℕ)
    → nsec < 1000000000
    → sec < 2147483648
    → filetime_to_unix_timespec
        (unix_timespec_to_filetime (record { tv_sec = sec; tv_nsec = nsec }))
      ≡ record { tv_sec = sec; tv_nsec = nsec - nsec % 100 }
unfolding filetime_to_unix_timespec unix_timespec_to_filetime
filetime_to_unix_timespec-unix_timespec_to_filetime sec nsec h k =
    let n : ℕ = sec * 1000000000 + nsec in
    let e : wrap64 n ≡ n = omega arith in
    let l : n < 18446744073709551616 = omega arith in
    let d : wrap32 (n / 100 * 100 / 1000000000) ≡ sec = omega arith in
    let m : wrap32 (n / 100 * 100 % 1000000000) ≡ nsec - nsec % 100 = omega arith in
    let x : extend sec ≡ sec = ground arith in
    let y : extend nsec ≡ nsec = ground arith in
    rw (x, y, e, filetime_to_unix-unix_time_to_filetime n l, d, m) refl

-- A time of `sec` seconds and `usec` microseconds that a 32-bit `long` holds, before 2^31 seconds,
-- comes back as it was.
pub filetime_to_unix_timeval-unix_timeval_to_filetime :
    (sec usec : ℕ)
    → usec < 1000000
    → sec < 2147483648
    → filetime_to_unix_timeval (unix_timeval_to_filetime (record { tv_sec = sec; tv_usec = usec }))
      ≡ record { tv_sec = sec; tv_usec = usec }
unfolding filetime_to_unix_timeval unix_timeval_to_filetime
filetime_to_unix_timeval-unix_timeval_to_filetime sec usec h k =
    let n : ℕ = sec * 1000000000 + usec * 1000 in
    let e : wrap64 n ≡ n = omega arith in
    let l : n < 18446744073709551616 = omega arith in
    let d : wrap32 (n / 100 * 100 / 1000000000) ≡ sec = omega arith in
    let m : wrap32 (n / 100 * 100 % 1000000000 / 1000) ≡ usec = omega arith in
    let x : extend sec ≡ sec = ground arith in
    let y : extend usec ≡ usec = ground arith in
    rw (x, y, e, filetime_to_unix-unix_time_to_filetime n l, d, m) refl

-- Every file time before 1970 is out of range: the seconds and the nanoseconds alone are then the
-- error value, the two structures get its low bits.
pub filetime_to_unix-early :
    (t : Filetime)
    → t.high_date_time * 4294967296 + t.low_date_time < ticks_to_unix_epoch
    → (filetime_to_unix_sec t ≡ out_of_range)
      × (filetime_to_unix_nsec t ≡ out_of_range)
      × (filetime_to_unix_timespec t ≡ record { tv_sec = 1266874889; tv_nsec = 709551615 })
      × (filetime_to_unix_timeval t ≡ record { tv_sec = 1266874889; tv_usec = 709551 })
unfolding filetime_to_unix_sec filetime_to_unix_nsec filetime_to_unix_timespec
    filetime_to_unix_timeval
filetime_to_unix-early t h =
    let e : filetime_to_unix t ≡ out_of_range = ground arith in rw e (refl, refl, refl, refl)
