-- ===== src/Pipe/Transfer.antt =====
-- src/fs/pipe.c: which reads and writes get to the system, and with what result.
use foreign_linux.Base.{
  ℕ, ◌≤◌, ◌≡◌, refl, true, false, ◌&&◌, min, Option, none, some, ltb, if◌then◌else◌, arith,
  Bool-cases, inl, inr,
}
use foreign_linux.Pipe.{
  Info, Pipe, get_poll_status, update_events, FileResult, Ret, ebadf, eagain, epipe, read_result,
  out, pipe_read, nonblock_error, write_unless, pipe_write,
}

-- On the read end of a connected pipe with O_NONBLOCK, a read after a poll fails with EAGAIN,
-- before it gets to ReadFile, if the poll has not reported POLLIN, and gets to ReadFile otherwise.
pub pipe_read-get_poll_status :
    (pipe : Pipe) (info : Info) (file : FileResult) (next : Option Info)
    → pipe.is_read ≡ true
    → pipe.nonblock ≡ true
    → info.connected ≡ true
    → let (after, status) = get_poll_status pipe (some info) in
      pipe_read after file next ≡ (
        if status.pollin
        then out after next (read_result file) true
        else out after next eagain false)
unfolding pipe_read get_poll_status update_events
pipe_read-get_poll_status pipe info file next r n c =
    elim (Bool-cases (ltb 0 info.read_data_available)) [
      | inl e ↦ rw (c, r, n, e) refl
      | inr e ↦ rw (c, r, n, e) refl
    ]

-- On the write end with O_NONBLOCK, where the query answers as it did for the poll before: a write
-- of one byte gets to WriteFile exactly if the poll has reported POLLOUT and the pipe is connected,
-- a longer write only if the pipe also has room for all of it or for 4096 bytes, and a write that
-- does not get there fails, with EPIPE if the pipe is not connected and with EAGAIN otherwise.
pub pipe_write-get_poll_status :
    (pipe : Pipe) (count : ℕ) (info : Info) (file : FileResult) (next : Option Info)
    → pipe.is_read ≡ false
    → pipe.nonblock ≡ true
    → 1 ≤ count
    → let (after, status) = get_poll_status pipe (some info) in
      let written = pipe_write after count (some info) file next in
      ((pipe_write after 1 (some info) file next).called ≡ (status.pollout && info.connected))
      × (written.called ≡ true
          → (status.pollout ≡ true) × (min 4096 count ≤ info.write_quota_available))
      × (written.called ≡ false → written.ret ≡ (if info.connected then eagain else epipe))
unfolding pipe_write get_poll_status
pipe_write-get_poll_status pipe count info file next r n h = elim (Bool-cases info.connected) [
  | inl e ↦ (ground arith, λ c. (ground arith, ground arith), λ c. ground arith)
  | inr e ↦ (ground arith, λ c. ground arith, λ c. ground arith)
]

write_unless-result :
    (e : Option Ret) (p q : Pipe) (file : FileResult) (info : Option Info)
    → ((write_unless e p file info).ret ≡ (write_unless e q file info).ret)
      × ((write_unless e p file info).called ≡ (write_unless e q file info).called)
unfolding write_unless
write_unless-result none p q file info = (refl, refl)
write_unless-result (some r) p q file info = (refl, refl)

-- A read of the write end always fails with EBADF and leaves ReadFile alone. A write does not tell
-- the ends apart: to the read end it gets as far and returns the same as to the write end.
pub wrong_end :
    (pipe : Pipe) (count : ℕ) (query info : Option Info) (file : FileResult)
    → (pipe.is_read ≡ false → pipe_read pipe file info ≡ out pipe info ebadf false)
      × ((pipe_write (record pipe { is_read = true }) count query file info).ret
          ≡ (pipe_write (record pipe { is_read = false }) count query file info).ret)
      × ((pipe_write (record pipe { is_read = true }) count query file info).called
          ≡ (pipe_write (record pipe { is_read = false }) count query file info).called)
unfolding pipe_read pipe_write update_events
wrong_end pipe count query info file =
    let same =
      write_unless-result (nonblock_error pipe count query) (record pipe { is_read = true })
        (record pipe { is_read = false }) file info in
    (λ e. rw e refl, same.0, same.1)
