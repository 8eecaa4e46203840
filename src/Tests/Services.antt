-- ===== src/Tests/Services.antt =====
-- A worker whose second `poll` is interrupted and whose third reports the stop descriptor, and the threads
-- of three workers, the second of which cannot be made.
use packet_inspector.Base.{ℕ, ◌≡◌, ◌↔◌, refl, true, false, none, some, List, [], ◌∷◌, take, All}
use packet_inspector.Poll.{
  ready, poll_failed, recv_failed, received, eintr, eio, Health, nobody, run_once, failed,
  error_text,
}
use packet_inspector.Poll.Failed.{is_error, error_text-run_once}
use packet_inspector.Service.{Wake, Run, carry_on, serve, queue_failed}
use packet_inspector.Cli.{parse}
use packet_inspector.Program.{Plan, main_result, counters_of}
use packet_inspector.Program.Coverage.{Decides}
use packet_inspector.Program.Served.{HasEnded, not_stopped, main_result-Serves}
use packet_inspector.Tests.Arguments.{decimal, arguments, arguments-run}
use packet_inspector.Tests.Programs.{well}
use packet_inspector.Service.Ended.{turns_of, IsAnswered, serve-IsAnswered}
use packet_inspector.Worker.{new_worker, loop}
use packet_inspector.Program.Counted.{IsSettled, loop-IsSettled}
use packet_inspector.Program.Threads.{Hand, no_thread, run_all, IsJoined, run_all-IsJoined}
use packet_inspector.Tests.{sample_stream}
use packet_inspector.Tests.Flows.{in_order}
use packet_inspector.Tests.Workers.{worker, arrival, arrivals, small_list}

abbrev sound : Health
sound = record { err_what = nobody; err_errno = 0 }

sound-failed : failed sound ≡ false
unfolding failed
sound-failed = refl

abbrev packets_in : Wake
packets_in = record {
  polled = ready (record { readable = true; broken = false }) false;
  got = received 70;
  arrivals = arrival 1 (take 30 sample_stream) ∷ [];
  after = 6;
}

abbrev interrupted : Wake
interrupted = record packets_in { polled = poll_failed eintr; after = 7 }

abbrev stopping : Wake
stopping = record packets_in { polled = ready (record { readable = true; broken = false }) true }

serve-IsAnswered_example :
    IsAnswered
      (λ calls. true)
      in_order
      true
      1
      (turns_of (λ calls. true) in_order true (packets_in ∷ interrupted ∷ stopping ∷ []) sound)
      worker
      (serve (λ calls. true) in_order true (packets_in ∷ interrupted ∷ stopping ∷ []) worker sound)
serve-IsAnswered_example =
    serve-IsAnswered (λ calls. true) in_order true 1 (packets_in ∷ interrupted ∷ []) stopping []
      (record { readable = true; broken = false }) worker sound refl refl tt sound-failed

loop-IsSettled_example :
    IsSettled 2
      (counters_of (loop (λ calls. true) in_order arrivals (new_worker false small_list 0 8 2)))
loop-IsSettled_example =
    loop-IsSettled (λ calls. true) in_order (λ calls. refl) false small_list 0 8 2 arrivals

error_text-run_once_example :
    (error_text
        (λ e. e ∷ [])
        (run_once true
          (ready (record { readable = true; broken = false }) false)
          (recv_failed eio)
          sound).1
      ≡ [])
    ↔ (is_error
          (run_once true
            (ready (record { readable = true; broken = false }) false)
            (recv_failed eio)
            sound).0
        ≡ false)
error_text-run_once_example =
    error_text-run_once (λ e. e ∷ []) true
      (ready (record { readable = true; broken = false }) false) (recv_failed eio) sound
      sound-failed

abbrev three_hands : List Hand
three_hands =
    record { thread = no_thread; pin_cpu = some 2; creates = true }
    ∷ record { thread = no_thread; pin_cpu = none; creates = false }
    ∷ record { thread = no_thread; pin_cpu = none; creates = true }
    ∷ []

run_all-IsJoined_example : All IsJoined (run_all false three_hands)
run_all-IsJoined_example = run_all-IsJoined false three_hands (refl, (refl, (refl, tt)))

abbrev met : Plan → List Wake
met plan = packets_in ∷ interrupted ∷ stopping ∷ []

abbrev run_of : Plan → Run ℕ
run_of plan = serve (λ calls. true) in_order true (met plan) worker sound

-- The run ends with the descriptor.
run_of-HasEnded : (plan : Plan) → HasEnded (run_of plan)
unfolding serve carry_on run_once packet_inspector.Poll.on_ready packet_inspector.Poll.on_recv
run_of-HasEnded plan = tt

main_result-Serves_example :
    Decides
      (parse decimal arguments).config
      well
      (λ p. not_stopped (run_of p))
      (main_result (parse decimal arguments) well (λ p. queue_failed (run_of p)))
main_result-Serves_example =
    main_result-Serves (λ calls. true) in_order decimal arguments well met (λ p. worker) sound
      arguments-run sound-failed run_of-HasEnded
