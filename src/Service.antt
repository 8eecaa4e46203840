-- ===== src/Service.antt =====
-- `Worker::loop` of src/worker.cpp over `run_once` of src/NFQueue.cpp: what each call of `run_once`
-- meets, and where the loop breaks.
pub mod Ended
use packet_inspector.Base.{ℕ, Bool, List, [], ◌∷◌}
use packet_inspector.Packet.{Verdict}
use packet_inspector.Extractor.State.{Reassembler}
use packet_inspector.Poll.{
  QueueEvent, packets, idle, stop, error, PollResult, RecvResult, Health, run_once, failed,
}
use packet_inspector.Worker.{Arrival, Worker, turn, finish}

-- What one call of `run_once` meets: what `poll` and `recv` return, the packets in the buffer if `recv`
-- fills it, and the time of the `tick` behind the call.
pub record Wake : Type 0 where
  pub polled : PollResult
  pub got : RecvResult
  pub arrivals : List Arrival
  pub after : ℕ

-- The worker in its loop, or behind it with the event that ended it.
pub data Run {ℓ} (R : Type ℓ) : Type ℓ where
  running : Worker R → Health → Run R
  ended : QueueEvent → Worker R → Health → Run R

-- `failed()` of the worker's queue.
abbrev pub queue_failed {ℓ} : {R : Type ℓ} → Run R → Bool
queue_failed (running w h) = failed h
queue_failed (ended ev w h) = failed h

-- The packets that `nfq_handle_packet` finds.
unfoldable pub brought : QueueEvent → List Arrival → List Arrival
brought packets arrivals = arrivals
brought idle arrivals = []
brought stop arrivals = []
brought error arrivals = []

module _ {ℓ} {R : Type ℓ} (takes : List (ℕ × Verdict) → Bool) (r : Reassembler R)
    (has_stop : Bool) where
  -- The test behind `run_once`: go on, or break and clean up.
  unfoldable pub carry_on : QueueEvent → Run R → Worker R → Health → Run R
  carry_on packets rest w h = rest
  carry_on idle rest w h = rest
  carry_on stop rest w h = ended stop (finish takes r w) h
  carry_on error rest w h = ended error (finish takes r w) h

  -- The loop, on what the calls of `run_once` meet.
  unfoldable pub serve : List Wake → Worker R → Health → Run R
  serve [] w h = running w h
  serve (x ∷ xs) w h =
      let woken = run_once has_stop x.polled x.got h in
      let rest = serve xs (turn takes r (brought woken.0 x.arrivals) x.after w) woken.1 in
      carry_on woken.0 rest w woken.1
