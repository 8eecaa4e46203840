-- ===== src/Tests/Programs.antt =====
-- The set-up of queues, and the main program on the command line `-j 8 -nfq 65528 x`.
use packet_inspector.Base.{◌≡◌, refl, true, false, none, some, [], ◌∷◌}
use packet_inspector.Cli.{parse}
use packet_inspector.Setup.{Answers, no_handles, open_queue}
use packet_inspector.Setup.Balance.{replay, culprit, life, thrown, is_bound, open_queue-balanced}
use packet_inspector.Program.{System, no_totals, sum_up, main_result}
use packet_inspector.Program.Sums.{IsFinal, ended_counters, sum_up-IsFinal}
use packet_inspector.Program.Coverage.{Decides, main_result-Decides}
use packet_inspector.Tests.Arguments.{decimal, arguments, arguments-run}
use packet_inspector.Tests.Flows.{in_order}
use packet_inspector.Tests.Workers.{arrivals, small_list}

-- The queue's number is taken: EBUSY.
abbrev taken : Answers
taken = record {
  on_open = none;
  on_bind = none;
  on_create = some 16;
  on_mode = none;
  force_refused = false;
}

abbrev pub granted : Answers
granted = record taken { on_create = none }

open_queue-balanced_example :
    (replay (culprit (open_queue taken)) (life (open_queue taken)) no_handles ≡ some no_handles)
    × (thrown (open_queue taken) ≡ some 16)
    × (is_bound (open_queue taken) ≡ false)
open_queue-balanced_example = open_queue-balanced taken

-- The block list is there, the queues are free, and threads can be made.
abbrev pub well : System
well = record {
  loads = true;
  has_stop_fd = true;
  answers = λ plan. granted;
  creates = λ plan. true;
  creates_stats = true;
}

main_result-Decides_example :
    Decides
      (parse decimal arguments).config
      well
      (λ plan. false)
      (main_result (parse decimal arguments) well (λ plan. false))
main_result-Decides_example =
    main_result-Decides decimal arguments well (λ plan. false) arguments-run

-- Two workers: one has had the two packets of a flow, the other none.
sum_up-IsFinal_example : IsFinal 2 (
    sum_up
      (ended_counters
        (λ calls. true)
        in_order
        (λ calls. refl)
        false
        small_list
        8
        2
        ((0, arrivals) ∷ (0, []) ∷ []))
      no_totals)
sum_up-IsFinal_example =
    sum_up-IsFinal (λ calls. true) in_order (λ calls. refl) false small_list 8 2
      ((0, arrivals) ∷ (0, []) ∷ [])
