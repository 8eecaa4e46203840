-- ===== src/Service/Ended.antt =====
-- How the loop of src/worker.cpp ends, and what it has answered by then.
use packet_inspector.Base.{ℕ, ◌+◌, ◌≡◌, refl, Bool, true, false, List, [], ◌∷◌, ◌++◌}
use packet_inspector.Packet.{Verdict}
use packet_inspector.Extractor.State.{Reassembler}
use packet_inspector.Extractor.Conserve.Tables.{times, IsTidy}
use packet_inspector.Poll.{
  QueueEvent, packets, idle, stop, error, Ready, ready, Health, on_ready, run_once, failed,
}
use packet_inspector.Poll.Failed.{is_error, failed-run_once}
use packet_inspector.Worker.{Arrival, Worker, turn, loop}
use packet_inspector.Worker.Answers.{count_answers, count_turns, loop-answers_all}
use packet_inspector.Service.{Wake, Run, running, ended, brought, carry_on, serve}

module _ {ℓ} {R : Type ℓ} (takes : List (ℕ × Verdict) → Bool) (r : Reassembler R)
    (has_stop : Bool) where
  abbrev go_on : QueueEvent → (List Arrival × ℕ) → List (List Arrival × ℕ) → List (List Arrival × ℕ)
  go_on packets t rest = t ∷ rest
  go_on idle t rest = t ∷ rest
  go_on stop t rest = []
  go_on error t rest = []

  -- The turns of the loop before it ends.
  abbrev pub turns_of : List Wake → Health → List (List Arrival × ℕ)
  turns_of [] h = []
  turns_of (x ∷ xs) h =
      let woken = run_once has_stop x.polled x.got h in
      go_on woken.0 (brought woken.0 x.arrivals, x.after) (turns_of xs woken.1)

  -- A loop that has ended has made these turns and cleaned up, and the queue has failed if it ended so.
  abbrev pub IsEndOf : List (List Arrival × ℕ) → Worker R → Run R → Type ℓ
  IsEndOf turns w (running w' h) = Unit {ℓ} × (failed h ≡ false)
  IsEndOf turns w (ended ev w' h) = (w' ≡ loop takes r turns w) × (failed h ≡ is_error ev)

  carry_on-IsEndOf :
      (ev : QueueEvent) (t : List Arrival × ℕ) (turns : List (List Arrival × ℕ)) (rest : Run R)
      (w : Worker R) (h : Health)
      → failed h ≡ is_error ev
      → (failed h ≡ false → IsEndOf turns (turn takes r t.0 t.1 w) rest)
      → IsEndOf (go_on ev t turns) w (carry_on takes r has_stop ev rest w h)
  unfolding carry_on loop
  carry_on-IsEndOf packets t turns (running w' h') w h tells later = later tells
  carry_on-IsEndOf packets t turns (ended ev w' h') w h tells later = later tells
  carry_on-IsEndOf idle t turns (running w' h') w h tells later = later tells
  carry_on-IsEndOf idle t turns (ended ev w' h') w h tells later = later tells
  carry_on-IsEndOf stop t turns rest w h tells later = (refl, tells)
  carry_on-IsEndOf error t turns rest w h tells later = (refl, tells)

  pub serve-IsEndOf :
      (xs : List Wake) (w : Worker R) (h : Health)
      → failed h ≡ false
      → IsEndOf (turns_of xs h) w (serve takes r has_stop xs w h)
  unfolding serve
  serve-IsEndOf [] w h fine = (tt, fine)
  serve-IsEndOf (x ∷ xs) w h fine =
      let woken = run_once has_stop x.polled x.got h in
      carry_on-IsEndOf woken.0 (brought woken.0 x.arrivals, x.after) (turns_of xs woken.1) _ w
        woken.1 (failed-run_once has_stop x.polled x.got h fine)
        (λ still. serve-IsEndOf xs _ woken.1 still)

  abbrev IsEnded : Run R → Type 0
  IsEnded (running w h) = ⊥
  IsEnded (ended ev w h) = Unit {0}

  carry_on-IsEnded :
      (ev : QueueEvent) (rest : Run R) (w : Worker R) (h : Health)
      → IsEnded rest
      → IsEnded (carry_on takes r has_stop ev rest w h)
  unfolding carry_on
  carry_on-IsEnded packets rest w h e = e
  carry_on-IsEnded idle rest w h e = e
  carry_on-IsEnded stop rest w h e = tt
  carry_on-IsEnded error rest w h e = tt

  run_once_stopped :
      (x : Wake) (socket : Ready) (h : Health)
      → has_stop ≡ true
      → x.polled ≡ ready socket true
      → run_once has_stop x.polled x.got h ≡ (stop, h)
  unfolding run_once on_ready
  run_once_stopped x socket h there stops = simp (there, stops, run_once, on_ready) refl

  serve-IsEnded :
      (before : List Wake) (x : Wake) (rest : List Wake) (socket : Ready) (w : Worker R)
      (h : Health)
      → has_stop ≡ true
      → x.polled ≡ ready socket true
      → IsEnded (serve takes r has_stop (before ++ x ∷ rest) w h)
  unfolding serve carry_on
  serve-IsEnded [] x rest socket w h there stops =
      rw (serve, run_once_stopped x socket h there stops) tt
  serve-IsEnded (y ∷ before) x rest socket w h there stops =
      carry_on-IsEnded _ _ w _ (serve-IsEnded before x rest socket _ _ there stops)

  -- How the loop has ended: with the event that ended it, the queue failed exactly if that is an error,
  -- every packet answered and none held.
  pub record IsAnswered (i : ℕ) (turns : List (List Arrival × ℕ)) (w : Worker R) (run : Run R)
      : Type ℓ where
    pub event : QueueEvent
    pub worker : Worker R
    pub health : Health
    pub ends : run ≡ ended event worker health
    pub tells : failed health ≡ is_error event
    pub answers :
        count_answers i worker.queue.answered
        ≡ count_turns i turns + (times i w.tls + count_answers i w.queue.answered)
    pub none_tracked : worker.tls.conns ≡ []
    pub none_decided : worker.tls.decided ≡ []

  IsEndOf-IsAnswered :
      (i : ℕ) (turns : List (List Arrival × ℕ)) (w : Worker R) (run : Run R)
      → IsTidy w.tls.conns
      → IsEnded run
      → IsEndOf turns w run
      → IsAnswered i turns w run
  IsEndOf-IsAnswered i turns w (running w' h) t over end = absurd over
  IsEndOf-IsAnswered i turns w (ended ev w' h) t over (same, tells) =
      let (answers, gone, drained, safe) = loop-answers_all takes r i turns w t in
      record {
        event = ev;
        worker = w';
        health = h;
        ends = refl;
        tells = tells;
        answers = rw same answers;
        none_tracked = rw same gone;
        none_decided = rw same drained;
      }

  -- For a worker in whose table blocked flows hold nothing and no key stands twice, with a stop
  -- descriptor and a queue that has not failed: once a call of `poll` reports the stop descriptor, the
  -- loop has ended, at that call or before. When it ends, whatever poll and recv returned: each packet
  -- that has been received, or was held or decided before, has been answered as often as it came in, no
  -- flow and no decided packet is left, and the queue has failed exactly if an error ended the loop.
  pub serve-IsAnswered :
      (i : ℕ) (before : List Wake) (x : Wake) (rest : List Wake) (socket : Ready) (w : Worker R)
      (h : Health)
      → has_stop ≡ true
      → x.polled ≡ ready socket true
      → IsTidy w.tls.conns
      → failed h ≡ false
      → IsAnswered i
          (turns_of (before ++ x ∷ rest) h)
          w
          (serve takes r has_stop (before ++ x ∷ rest) w h)
  serve-IsAnswered i before x rest socket w h there stops t fine =
      IsEndOf-IsAnswered i _ w _ t (serve-IsEnded before x rest socket w h there stops)
        (serve-IsEndOf (before ++ x ∷ rest) w h fine)
