-- ===== src/Poll/Failed.antt =====
-- When `failed` of include/NFQueue.hpp is true.
use packet_inspector.Base.{
  ℕ, ◌≡◌, Bool, true, false, ◌&&◌, ◌||◌, ◌==◌, if◌then◌else◌, arith, ◌≢◌, ◌↔◌, refl, sym, ◌∙◌, inl,
  inr, [], ◌++◌, Bytes, Bool-cases,
}
use packet_inspector.Poll.{
  QueueEvent, packets, idle, stop, error, Ready, PollResult, poll_failed, timed_out, ready,
  RecvResult, recv_failed, received, eintr, eio, eagain, enobufs, Culprit, poll_call,
  netlink_socket, recv_call, Health, record_error, on_recv, on_ready, run_once, failed, nobody,
  what_text, error_text,
}

abbrev pub is_error : QueueEvent → Bool
is_error error = true
is_error packets = false
is_error idle = false
is_error stop = false

record_error-failed :
    (what : Culprit) (err : ℕ) (h : Health) → failed (record_error what err h) ≡ true
unfolding record_error failed
record_error-failed what err h = ground arith

-- The result tells of an error exactly if the queue has failed by now.
abbrev Tells : QueueEvent × Health → Type 0
Tells r = failed r.1 ≡ is_error r.0

Tells-if : (b : Bool) (r s : QueueEvent × Health) → Tells r → Tells s → Tells (if b then r else s)
Tells-if true r s t u = t
Tells-if false r s t u = u

on_recv-Tells : (r : RecvResult) (h : Health) → failed h ≡ false → Tells (on_recv r h)
unfolding on_recv
on_recv-Tells (received n) h healthy = Tells-if (n == 0) _ _ healthy healthy
on_recv-Tells (recv_failed e) h healthy =
    Tells-if (e == enobufs || e == eintr || e == eagain) _ _ healthy
      (record_error-failed recv_call e h)

on_ready-Tells :
    (has_stop : Bool) (socket : Ready) (stops : Bool) (r : RecvResult) (h : Health)
    → failed h ≡ false
    → Tells (on_ready has_stop socket stops r h)
unfolding on_ready
on_ready-Tells has_stop socket stops r h healthy = Tells-if (has_stop && stops) _ _ healthy (
    Tells-if socket.readable _ _ (on_recv-Tells r h healthy)
      (Tells-if socket.broken _ _ (record_error-failed netlink_socket eio h) healthy))

-- On a queue that has not failed, whatever `poll` and `recv` return: `failed` is true after `run_once`
-- exactly if `run_once` has returned the error event.
pub failed-run_once :
    (has_stop : Bool) (p : PollResult) (r : RecvResult) (h : Health)
    → failed h ≡ false
    → failed (run_once has_stop p r h).1 ≡ is_error (run_once has_stop p r h).0
unfolding run_once
failed-run_once has_stop (poll_failed e) r h healthy =
    Tells-if (e == eintr) _ _ healthy (record_error-failed poll_call e h)
failed-run_once has_stop timed_out r h healthy = healthy
failed-run_once has_stop (ready socket stops) r h healthy =
    on_ready-Tells has_stop socket stops r h healthy

what_text-some : (what : Culprit) (rest : Bytes) → what_text what ++ rest ≢ []
what_text-some nobody rest z = cc
what_text-some poll_call rest z = cc
what_text-some netlink_socket rest z = cc
what_text-some recv_call rest z = cc

error_text-failed :
    (strerror : ℕ → Bytes) (h : Health) → (error_text strerror h ≡ []) ↔ (failed h ≡ false)
unfolding error_text failed
error_text-failed strerror h = elim (Bool-cases (h.err_errno == 0)) [
  | inl fine ↦ rw fine ((λ z. refl), λ z. refl)
  | inr broken ↦
      rw broken ((λ z. absurd (what_text-some h.err_what _ z)), λ z. absurd (ground arith))
]

-- On a queue that has not failed, whatever `poll`, `recv` and `strerror` return: `error` is empty after
-- `run_once` exactly if `run_once` has not returned the error event.
pub error_text-run_once :
    (strerror : ℕ → Bytes) (has_stop : Bool) (p : PollResult) (r : RecvResult) (h : Health)
    → failed h ≡ false
    → (error_text strerror (run_once has_stop p r h).1 ≡ [])
      ↔ (is_error (run_once has_stop p r h).0 ≡ false)
error_text-run_once strerror has_stop p r h healthy =
    let text = error_text-failed strerror (run_once has_stop p r h).1 in
    let same = failed-run_once has_stop p r h healthy in
    ((λ z. sym same ∙ text.0 z), λ z. text.1 (same ∙ z))
