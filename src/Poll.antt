-- ===== src/Poll.antt =====
-- `run_once` and `record_error` of src/NFQueue.cpp, on what `poll` and `recv` return. The packets that
-- the buffer carries are handled in Worker.
pub mod Failed
use packet_inspector.Base.{
  ℕ, Bool, true, false, ◌&&◌, ◌||◌, ◌==◌, if◌then◌else◌, List, [], ◌∷◌, ◌++◌, Bytes,
}

-- `NFQueue::Event`
pub data QueueEvent : Type 0 where
  packets idle stop error : QueueEvent

-- The `revents` of the netlink socket: `POLLIN`, and any of `POLLERR`, `POLLHUP` and `POLLNVAL`.
pub record Ready : Type 0 where
  pub readable : Bool
  pub broken : Bool

-- What `poll` gives: a failure with its `errno`, no descriptor, or the socket's state and whether the
-- stop descriptor, if there is one, has any event.
pub data PollResult : Type 0 where
  poll_failed : ℕ → PollResult
  timed_out : PollResult
  ready : Ready → Bool → PollResult

pub data RecvResult : Type 0 where
  recv_failed : ℕ → RecvResult
  received : ℕ → RecvResult

-- Linux's values.
abbrev pub eintr : ℕ
eintr = 4

abbrev pub eio : ℕ
eio = 5

-- Also `EWOULDBLOCK`.
abbrev pub eagain : ℕ
eagain = 11

abbrev pub enobufs : ℕ
enobufs = 105

-- Which call `record_error` has been told of.
pub data Culprit : Type 0 where
  nobody poll_call netlink_socket recv_call : Culprit

pub record Health : Type 0 where
  pub err_what : Culprit
  pub err_errno : ℕ

unfoldable pub record_error : Culprit → ℕ → Health → Health
record_error what err h = record { err_what = what; err_errno = if err == 0 then eio else err }

-- From `recv` on.
unfoldable pub on_recv : RecvResult → Health → QueueEvent × Health
on_recv (received n) h = if n == 0 then (idle, h) else (packets, h)
on_recv (recv_failed e) h =
    if e == enobufs || e == eintr || e == eagain
    then (idle, h)
    else (error, record_error recv_call e h)

-- The tests on `fds`.
unfoldable pub on_ready : Bool → Ready → Bool → RecvResult → Health → QueueEvent × Health
on_ready has_stop socket stops r h =
    if has_stop && stops
    then (stop, h)
    else if socket.readable
    then on_recv r h
    else if socket.broken
    then (error, record_error netlink_socket eio h)
    else (idle, h)

unfoldable pub run_once : Bool → PollResult → RecvResult → Health → QueueEvent × Health
run_once has_stop (poll_failed e) r h =
    if e == eintr then (idle, h) else (error, record_error poll_call e h)
run_once has_stop timed_out r h = (idle, h)
run_once has_stop (ready socket stops) r h = on_ready has_stop socket stops r h

-- `failed()`
unfoldable pub failed : Health → Bool
failed h = if h.err_errno == 0 then false else true

-- The strings that `record_error` is given; `error` has "nfqueue" for a null pointer.
abbrev pub what_text : Culprit → Bytes
what_text nobody = 110 ∷ 102 ∷ 113 ∷ 117 ∷ 101 ∷ 117 ∷ 101 ∷ []
what_text poll_call = 112 ∷ 111 ∷ 108 ∷ 108 ∷ []
what_text netlink_socket =
    112 ∷ 111 ∷ 108 ∷ 108 ∷ 58 ∷ 32 ∷ 110 ∷ 101 ∷ 116 ∷ 108 ∷ 105 ∷ 110 ∷ 107 ∷ 32 ∷ 115 ∷ 111 ∷ 99
    ∷ 107 ∷ 101 ∷ 116 ∷ 32 ∷ 101 ∷ 114 ∷ 114 ∷ 111 ∷ 114 ∷ []
what_text recv_call = 114 ∷ 101 ∷ 99 ∷ 118 ∷ []

-- `error()`, over `strerror`.
unfoldable pub error_text : (ℕ → Bytes) → Health → Bytes
error_text strerror h =
    if h.err_errno == 0 then [] else what_text h.err_what ++ 58 ∷ 32 ∷ strerror h.err_errno
