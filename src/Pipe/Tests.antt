-- ===== src/Pipe/Tests.antt =====
-- src/fs/pipe.c with 2 bytes to read, and with room for 100.
use foreign_linux.Base.{min, ◌&&◌, ◌≤◌, ◌≡◌, refl, true, false, none, some, arith}
use foreign_linux.Pipe.{Info, Pipe, transferred, eagain, pipe_write, get_poll_status, update_events}
use foreign_linux.Pipe.Poll.{update_events-get_poll_status}
use foreign_linux.Pipe.Transfer.{pipe_write-get_poll_status}

abbrev filled : Info
filled = record {
  read_data_available = 2;
  inbound_quota = 8;
  write_quota_available = 100;
  outbound_quota = 4096;
  connected = true;
}

abbrev reader : Pipe
reader = record {
  handle = 1;
  read_event = false;
  write_event = false;
  is_read = true;
  nonblock = true;
}

abbrev writer : Pipe
writer = record {
  handle = 2;
  read_event = false;
  write_event = true;
  is_read = false;
  nonblock = true;
}

pipe_write-get_poll_status_example :
    let (after, status) = get_poll_status writer (some filled) in
    let written = pipe_write after 200 (some filled) (transferred 200) none in
    ((pipe_write after 1 (some filled) (transferred 200) none).called ≡ (status.pollout && true))
    × (written.called ≡ true → (status.pollout ≡ true) × (min 4096 200 ≤ 100))
    × (written.called ≡ false → written.ret ≡ eagain)
pipe_write-get_poll_status_example =
    pipe_write-get_poll_status writer 200 filled (transferred 200) none refl refl (omega arith)

update_events-get_poll_status_example :
    update_events reader (some filled) ≡ (get_poll_status reader (some filled)).0
update_events-get_poll_status_example = update_events-get_poll_status reader (some filled)
