-- ===== src/Program.antt =====
-- src/main.cpp: the workers that `main` builds, its counters and its exit code. The signal
-- handlers and what is printed, but for `stats_line`, are not modelled.
pub mod Coverage
pub mod Sums
pub mod Counted
pub mod Threads
pub mod Served
use packet_inspector.Base.{
  ℕ, zero, suc, ◌+◌, ◌-◌, ◌*◌, ◌%◌, ◌^◌, Bool, true, false, not, Option, none, some, List, [], ◌∷◌,
  ◌++◌, if◌then◌else◌, ltb, ◌&&◌, ◌||◌,
}
use packet_inspector.Cli.{Config, ParseResult, worker_count, recv_buf_per_worker}
use packet_inspector.Extractor.State.{Extractor}
use packet_inspector.Worker.{Queue, Worker}
use packet_inspector.Setup.{NfqCall, Answers, SetupResult, bound, threw, open_queue}
use packet_inspector.Program.Threads.{Hand, no_thread, start_workers}

-- The arguments of `Worker`'s constructor that differ between workers or come from the command line;
-- no CPU to pin to, `-1`, is `none`.
pub record Plan : Type 0 where
  pub id : ℕ
  pub queue_num : ℕ
  pub queue_maxlen : ℕ
  pub recv_buf_bytes : ℕ
  pub max_blocked : ℕ
  pub pin_cpu : Option ℕ

unfoldable pub pin_of : Config → ℕ → Option ℕ
pin_of c i = elim c.pin_first_cpu [ none ↦ none | some first ↦ some (first + i * c.pin_stride) ]

unfoldable pub plan : Config → ℕ → Plan
plan c i = record {
  id = i;
  queue_num = (c.queue_num + i) % 2 ^ 16;
  queue_maxlen = c.queue_maxlen;
  recv_buf_bytes = recv_buf_per_worker c;
  max_blocked = c.max_blocked_flows;
  pin_cpu = pin_of c i;
}

-- The workers that were built, and what the constructor of the next one has thrown, if one has.
pub record Crew : Type 0 where
  pub workers : List Plan
  pub thrown : Option (NfqCall × ℕ)

module _ (answers : Plan → Answers) (c : Config) where
  -- The loop over `i`, with so many workers left to build.
  unfoldable pub build : ℕ → ℕ → Crew
  build i zero = record { workers = []; thrown = none }
  build i (suc left) =
      let rest = build (i + 1) left in
      elim (open_queue (answers (plan c i))) [
        | threw what err made ↦ record { workers = []; thrown = some (what, err) }
        | bound h made ↦ record { workers = plan c i ∷ rest.workers; thrown = rest.thrown }
      ]

  unfoldable pub crew : Crew
  crew = build 0 (worker_count c)

-- The loop over the workers behind the joins: `rc` is set to 1 where a queue has failed.
unfoldable pub review : (Plan → Bool) → List Plan → ℕ → ℕ
review failed [] rc = rc
review failed (w ∷ ws) rc = review failed ws (if failed w then 1 else rc)

-- The workers before their threads are made.
unfoldable pub hands : (Plan → Bool) → List Plan → List Hand
hands creates [] = []
hands creates (w ∷ ws) =
    record { thread = no_thread; pin_cpu = w.pin_cpu; creates = creates w } ∷ hands creates ws

-- Whether the constructor of the statistics thread throws: only if there is an interval, and unless a
-- thread can be made for it.
unfoldable pub stats_throws : Config → Bool → Bool
stats_throws c creates = ltb 0 c.stats_interval_s && not creates

-- What the program meets: whether the block list loads and `eventfd` gives a descriptor, what the
-- libraries answer to each worker's queue, and whether a thread can be made for each worker and for the
-- statistics.
pub record System : Type 0 where
  pub loads : Bool
  pub has_stop_fd : Bool
  pub answers : Plan → Answers
  pub creates : Plan → Bool
  pub creates_stats : Bool

-- The try block, and what its handler sets: on whose queue has failed when all have been joined.
unfoldable pub run_crew : Config → System → (Plan → Bool) → Crew → ℕ
run_crew c s failed crew = elim crew.thrown [
  | some e ↦ 1
  | none ↦
      if (start_workers (hands s.creates crew.workers)).1 || stats_throws c s.creates_stats
      then 1
      else review failed crew.workers 0
]

unfoldable pub main_result : ParseResult → System → (Plan → Bool) → ℕ
main_result parsed s failed =
    if parsed.should_exit
    then parsed.exit_code
    else if not s.loads
    then 1
    else if not s.has_stop_fd
    then 1
    else run_crew parsed.config s failed (crew s.answers parsed.config)

-- What `stats_line` reads of a worker: each getter once, and the two counters that `outstanding` reads
-- again, which may have changed by then.
pub record Counters : Type 0 where
  pub flows : ℕ
  pub blocked : ℕ
  pub dropped : ℕ
  pub received : ℕ
  pub verdicted : ℕ
  pub received_again : ℕ
  pub verdicted_again : ℕ
  pub undecided : ℕ

-- The getters that `stats_line` calls.
abbrev pub packets_received : Queue → ℕ
packets_received q = q.received

abbrev pub verdicts_issued : Queue → ℕ
verdicts_issued q = q.verdicted

abbrev pub packets_undecided : Queue → ℕ
packets_undecided q = q.undecided

module _ {ℓ} {R : Type ℓ} where
  abbrev pub tracked_flows : Extractor R → ℕ
  tracked_flows e = e.flows

  abbrev pub blocked_flows : Extractor R → ℕ
  blocked_flows e = e.blocked

  abbrev pub flows_dropped_at_cap : Extractor R → ℕ
  flows_dropped_at_cap e = e.dropped_at_cap

  -- All of it at one time, as of a worker that has been joined.
  abbrev pub counters_of : Worker R → Counters
  counters_of w = record {
    flows = tracked_flows w.tls;
    blocked = blocked_flows w.tls;
    dropped = flows_dropped_at_cap w.tls;
    received = packets_received w.queue;
    verdicted = verdicts_issued w.queue;
    received_again = packets_received w.queue;
    verdicted_again = verdicts_issued w.queue;
    undecided = packets_undecided w.queue;
  }

-- `NFQueue::outstanding`
unfoldable pub outstanding : Counters → ℕ
outstanding w = (w.received_again + 2 ^ 64 - w.verdicted_again) % 2 ^ 64

-- The sums of `stats_line`, in the order in which it prints them.
pub record Totals : Type 0 where
  pub received : ℕ
  pub verdicted : ℕ
  pub outstanding : ℕ
  pub flows : ℕ
  pub blocked : ℕ
  pub dropped : ℕ
  pub undecided : ℕ

abbrev pub no_totals : Totals
no_totals = record {
  received = 0;
  verdicted = 0;
  outstanding = 0;
  flows = 0;
  blocked = 0;
  dropped = 0;
  undecided = 0;
}

unfoldable pub add_worker : Counters → Totals → Totals
add_worker w t = record {
  received = (t.received + w.received) % 2 ^ 64;
  verdicted = (t.verdicted + w.verdicted) % 2 ^ 64;
  outstanding = (t.outstanding + outstanding w) % 2 ^ 64;
  flows = (t.flows + w.flows) % 2 ^ 64;
  blocked = (t.blocked + w.blocked) % 2 ^ 64;
  dropped = (t.dropped + w.dropped) % 2 ^ 64;
  undecided = (t.undecided + w.undecided) % 2 ^ 64;
}

unfoldable pub sum_up : List Counters → Totals → Totals
sum_up [] t = t
sum_up (w ∷ ws) t = sum_up ws (add_worker w t)
