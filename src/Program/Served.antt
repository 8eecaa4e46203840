-- ===== src/Program/Served.antt =====
-- The exit code of src/main.cpp, and how the loops of src/worker.cpp have ended.
use packet_inspector.Base.{ℕ, ◌≡◌, ◌∙◌, sym, subst, refl, Bool, true, false, List, [], ◌∷◌, Bytes}
use packet_inspector.Packet.{Verdict}
use packet_inspector.Extractor.State.{Reassembler}
use packet_inspector.Poll.{QueueEvent, packets, idle, stop, error, Health, run_once, failed}
use packet_inspector.Poll.Failed.{is_error}
use packet_inspector.Worker.{Worker, turn}
use packet_inspector.Service.{Wake, Run, running, ended, brought, carry_on, serve, queue_failed}
use packet_inspector.Service.Ended.{turns_of, IsEndOf, serve-IsEndOf}
use packet_inspector.Cli.{Number, parse}
use packet_inspector.Program.{Plan, System, main_result}
use packet_inspector.Program.Coverage.{Decides, main_result-Decides}

-- The loop has ended, as it has when `join` returns.
abbrev pub HasEnded {ℓ} : {R : Type ℓ} → Run R → Type 0
HasEnded (running w h) = ⊥
HasEnded (ended ev w h) = Unit {0}

-- The loop has not been ended by the stop descriptor.
abbrev pub not_stopped {ℓ} : {R : Type ℓ} → Run R → Bool
not_stopped (running w h) = true
not_stopped (ended packets w h) = true
not_stopped (ended idle w h) = true
not_stopped (ended stop w h) = false
not_stopped (ended error w h) = true

-- What ends a loop is the stop descriptor or an error of the queue.
abbrev EndsBy {ℓ} : {R : Type ℓ} → Run R → Type 0
EndsBy (running w h) = Unit {0}
EndsBy (ended ev w h) = not_stopped (ended ev w h) ≡ is_error ev

module _ {ℓ} {R : Type ℓ} (takes : List (ℕ × Verdict) → Bool) (r : Reassembler R) where
  carry_on-EndsBy :
      (ev : QueueEvent) (rest : Run R) (w : Worker R) (h : Health)
      → EndsBy rest
      → EndsBy (carry_on takes r true ev rest w h)
  unfolding carry_on
  carry_on-EndsBy packets rest w h e = e
  carry_on-EndsBy idle rest w h e = e
  carry_on-EndsBy stop rest w h e = refl
  carry_on-EndsBy error rest w h e = refl

  serve-EndsBy : (xs : List Wake) (w : Worker R) (h : Health) → EndsBy (serve takes r true xs w h)
  unfolding serve
  serve-EndsBy [] w h = tt
  serve-EndsBy (x ∷ xs) w h =
      let woken = run_once true x.polled x.got h in
      carry_on-EndsBy woken.0 _ w woken.1
        (serve-EndsBy xs (turn takes r (brought woken.0 x.arrivals) x.after w) woken.1)

  end-failed :
      (turns : List _) (w : Worker R) (run : Run R)
      → IsEndOf takes r true turns w run
      → EndsBy run
      → HasEnded run
      → queue_failed run ≡ not_stopped run
  end-failed turns w (running w' h) e by over = absurd over
  end-failed turns w (ended ev w' h) e by over = e.1 ∙ sym by

  -- Where the arguments let the program run, and each worker's loop, whose queue had not failed before,
  -- has ended, whatever its calls of `poll` and `recv` have returned: `main` returns 0 or 1, and 0 exactly
  -- if the block list was loaded, the stop descriptor was there, each worker's queue opened, a thread
  -- could be made for each worker and, if an interval is set, for the statistics, and each worker's
  -- loop was ended by the stop descriptor; then the workers have bound each queue from `queue_num` to
  -- `last_queue_num` once, in order and without wrap-around.
  pub main_result-Serves :
      (strtoull : Bytes → Number) (args : List Bytes) (s : System) (wakes : Plan → List Wake)
      (worker : Plan → Worker R) (h : Health)
      → (parse strtoull args).should_exit ≡ false
      → failed h ≡ false
      → ((p : Plan) → HasEnded (serve takes r true (wakes p) (worker p) h))
      → Decides
          (parse strtoull args).config
          s
          (λ p. not_stopped (serve takes r true (wakes p) (worker p) h))
          (main_result
            (parse strtoull args)
            s
            (λ p. queue_failed (serve takes r true (wakes p) (worker p) h)))
  main_result-Serves strtoull args s wakes worker h runs fine over =
      let run : Plan → Run R = λ p. serve takes r true (wakes p) (worker p) h in
      let failing : Plan → Bool = λ p. queue_failed (run p) in
      let unstopped : Plan → Bool = λ p. not_stopped (run p) in
      let each : (p : Plan) → failing p ≡ unstopped p = λ p.
        end-failed (turns_of takes r true (wakes p) h) (worker p) (run p)
          (serve-IsEndOf takes r true (wakes p) (worker p) h fine)
          (serve-EndsBy (wakes p) (worker p) h) (over p) in
      let same : failing ≡ unstopped = λ i p. each p i in
      let c = (parse strtoull args).config in
      subst (λ f. Decides c s f (main_result (parse strtoull args) s failing)) same
        (main_result-Decides strtoull args s failing runs)
