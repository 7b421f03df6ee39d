-- ===== src/Pipe/Poll.antt =====
-- src/fs/pipe.c: the events that a pipe waits on agree with its poll status.
use foreign_linux.Base.{
  ◌≡◌, refl, Bool, Option, none, some, if◌then◌else◌, arith, Bool-cases, inl, inr,
}
use foreign_linux.Pipe.{
  Info, Pipe, get_poll_status, PollHandle, read_handle, write_handle, get_poll_handle,
  update_events,
}

-- Whether the event of a poll handle is set.
abbrev is_signalled : Pipe → PollHandle → Bool
is_signalled pipe read_handle = pipe.read_event
is_signalled pipe write_handle = pipe.write_event

-- `pipe_update_events`, run after each transfer, leaves the events as `pipe_get_poll_status` does,
-- whatever the query answers.
pub update_events-get_poll_status :
    (pipe : Pipe) (info : Option Info) → update_events pipe info ≡ (get_poll_status pipe info).0
unfolding update_events get_poll_status
update_events-get_poll_status pipe none = refl
update_events-get_poll_status pipe (some info) = elim (Bool-cases info.connected) [
  | inl e ↦ rw e refl
  | inr e ↦ rw e refl
]

-- After a query that succeeds, the event that `pipe_get_poll_handle` gives to wait on is set exactly
-- if the poll status has the flag of that end: POLLIN for the read end, POLLOUT for the write end.
pub get_poll_handle-get_poll_status :
    (pipe : Pipe) (info : Info)
    → let (after, status) = get_poll_status pipe (some info) in
      is_signalled after (get_poll_handle after)
      ≡ (if pipe.is_read then status.pollin else status.pollout)
unfolding get_poll_status get_poll_handle
get_poll_handle-get_poll_status pipe info = elim (Bool-cases info.connected) [
  | inl e ↦ elim (Bool-cases pipe.is_read) [ inl r ↦ ground (arith) | inr r ↦ ground arith ]
  | inr e ↦ elim (Bool-cases pipe.is_read) [ inl r ↦ ground (arith) | inr r ↦ ground arith ]
]
