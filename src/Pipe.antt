-- ===== src/Pipe.antt =====
-- src/fs/pipe.c: pipes over anonymous Win32 pipes, with two events for poll.
-- A call takes the answers of the system calls it makes as arguments: `Option Info` is what
-- NtQueryInformationFile returns, `none` where it fails.
pub mod Tests
pub mod Poll
pub mod Transfer
use foreign_linux.Base.{
  ℕ, Bool, true, false, ◌&&◌, ◌||◌, not, Option, none, some, List, [], ◌∷◌, ltb, min, if◌then◌else◌,
}

-- FILE_PIPE_LOCAL_INFORMATION, with NamedPipeState == FILE_PIPE_CONNECTED_STATE as `connected`.
pub record Info : Type 0 where
  pub read_data_available : ℕ
  pub inbound_quota : ℕ
  pub write_quota_available : ℕ
  pub outbound_quota : ℕ
  pub connected : Bool

pub record Pipe : Type 0 where
  pub handle : ℕ
  pub read_event : Bool
  pub write_event : Bool
  pub is_read : Bool
  pub nonblock : Bool

pub record PollStatus : Type 0 where
  pub pollin : Bool
  pub pollout : Bool
  pub pollerr : Bool
  pub pollhup : Bool

abbrev pub is_readable : Pipe → Info → Bool
is_readable pipe info =
    (pipe.is_read && ltb 0 info.read_data_available)
    || (not pipe.is_read && ltb info.write_quota_available info.outbound_quota)

abbrev pub is_writable : Pipe → Info → Bool
is_writable pipe info =
    (pipe.is_read && ltb info.read_data_available info.inbound_quota)
    || (not pipe.is_read && ltb 0 info.write_quota_available)

abbrev pub set_events : Pipe → (read_event write_event : Bool) → Pipe
set_events pipe r w = record pipe { read_event = r; write_event = w }

pub get_poll_status : Pipe → Option Info → Pipe × PollStatus
get_poll_status pipe none =
    (pipe, record { pollin = false; pollout = false; pollerr = true; pollhup = false })
get_poll_status pipe (some info) =
    if info.connected
    then (
      set_events pipe (is_readable pipe info) (is_writable pipe info),
      record {
        pollin = is_readable pipe info && pipe.is_read;
        pollout = is_writable pipe info && not pipe.is_read;
        pollerr = false;
        pollhup = false;
      },
    )
    else (
      set_events pipe true true,
      record { pollin = true; pollout = true; pollerr = false; pollhup = true },
    )

-- The handle to wait on and the flag it stands for.
pub data PollHandle : Type 0 where
  read_handle write_handle : PollHandle

pub get_poll_handle : Pipe → PollHandle
get_poll_handle pipe = if pipe.is_read then read_handle else write_handle

pub update_events : Pipe → Option Info → Pipe
update_events pipe none = pipe
update_events pipe (some info) =
    if info.connected
    then set_events pipe (is_readable pipe info) (is_writable pipe info)
    else set_events pipe true true

-- What ReadFile or WriteFile answers.
pub data FileResult : Type 0 where
  transferred : ℕ → FileResult
  broken_pipe failed : FileResult

pub data Ret : Type 0 where
  ok : ℕ → Ret
  ebadf eagain eio epipe espipe emfile enomem : Ret

-- `called` says whether the call got to ReadFile or WriteFile.
pub record Outcome : Type 0 where
  pub pipe : Pipe
  pub ret : Ret
  pub called : Bool

abbrev pub read_result : FileResult → Ret
read_result (transferred n) = ok n
read_result broken_pipe = ok 0
read_result failed = eio

abbrev pub write_result : FileResult → Ret
write_result (transferred n) = ok n
write_result broken_pipe = epipe
write_result failed = eio

-- The label `out`, where `info` is the answer to the query of `pipe_update_events`.
abbrev pub out : Pipe → Option Info → Ret → Bool → Outcome
unfolding update_events
out pipe info r called = record { pipe = update_events pipe info; ret = r; called = called }

pub pipe_read : Pipe → FileResult → (info : Option Info) → Outcome
unfolding update_events
pipe_read pipe file info =
    if not pipe.is_read
    then out pipe info ebadf false
    else (if pipe.nonblock && not pipe.read_event
        then out pipe info eagain false
        else out pipe info (read_result file) true)

-- The error of the checks that only a pipe with O_NONBLOCK makes.
abbrev pub quota_error : (count : ℕ) → (query : Option Info) → Option Ret
quota_error count none = some eio
quota_error count (some info) =
    if not info.connected
    then some epipe
    else (if ltb info.write_quota_available (min 4096 count) then some eagain else none)

abbrev pub nonblock_error : Pipe → (count : ℕ) → (query : Option Info) → Option Ret
nonblock_error pipe count query =
    if not pipe.nonblock
    then none
    else (if not pipe.write_event then some eagain else quota_error count query)

abbrev pub write_unless : Option Ret → Pipe → FileResult → (info : Option Info) → Outcome
unfolding update_events
write_unless (some r) pipe file info = out pipe info r false
write_unless none pipe file info = out pipe info (write_result file) true

-- The test of `pipe->is_read` sets `r` alone, which each way to `out` sets again.
unfoldable pub pipe_write :
    Pipe → (count : ℕ) → (query : Option Info) → FileResult → (info : Option Info) → Outcome
unfolding update_events
pipe_write pipe count query file info =
    write_unless (nonblock_error pipe count query) pipe file info

pub pipe_llseek : Pipe → (offset whence : ℕ) → Ret
pipe_llseek pipe offset whence = espipe

-- `flags` is not looked at: `file_init` gets O_RDONLY or O_WRONLY alone.
pub pipe_create_file : (handle : ℕ) → (is_read : Bool) → (flags : ℕ) → Pipe
pipe_create_file handle is_read flags = record {
  handle = handle;
  read_event = false;
  write_event = false;
  is_read = is_read;
  nonblock = false;
}

-- The result of `pipe_alloc`: the two files, or an error and the handles that stay open.
pub data AllocResult : Type 0 where
  files : Pipe → Pipe → AllocResult
  error : Ret → (left_open : List ℕ) → AllocResult

-- The handles of CreatePipe, of the two calls of NtCreateEvent and of the two of NtDuplicateObject.
pub pipe_alloc :
    (pipe : Option (ℕ × ℕ))
    → (read_event write_event read_event2 write_event2 : Option ℕ) → (flags : ℕ) → AllocResult
unfolding pipe_create_file
pipe_alloc none r w r2 w2 flags = error emfile []
pipe_alloc (some (rh, wh)) none w r2 w2 flags = error enomem (rh ∷ wh ∷ [])
pipe_alloc (some (rh, wh)) (some r) none r2 w2 flags = error enomem (rh ∷ wh ∷ r ∷ [])
pipe_alloc (some (rh, wh)) (some r) (some w) none w2 flags = error enomem (rh ∷ wh ∷ r ∷ w ∷ [])
pipe_alloc (some (rh, wh)) (some r) (some w) (some r2) none flags =
    error enomem (rh ∷ wh ∷ r ∷ w ∷ r2 ∷ [])
pipe_alloc (some (rh, wh)) (some r) (some w) (some r2) (some w2) flags =
    files (pipe_create_file rh true flags) (pipe_create_file wh false flags)
