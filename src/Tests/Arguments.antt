-- ===== src/Tests/Arguments.antt =====
-- The command line `-j 8 -nfq 65528 x`.
use packet_inspector.Base.{ℕ, ◌+◌, ◌*◌, ◌-◌, ◌≡◌, refl, false, List, [], ◌∷◌, Bytes, length}
use packet_inspector.Cli.{Number, ParseResult, last_queue_num, worker_count, parse}
use packet_inspector.Cli.Ranges.{InRange}
use packet_inspector.Cli.Accepted.{parse-InRange}

abbrev pub digits : Bytes → ℕ → ℕ
digits [] n = n
digits (c ∷ cs) n = digits cs (n * 10 + (c - 48))

abbrev pub decimal : Bytes → Number
decimal s = record { value = digits s 0; failed = false; used = length s }

abbrev pub arguments : List Bytes
arguments =
    (45 ∷ 106 ∷ [])
    ∷ (56 ∷ [])
    ∷ (45 ∷ 110 ∷ 102 ∷ 113 ∷ [])
    ∷ (54 ∷ 53 ∷ 53 ∷ 50 ∷ 56 ∷ [])
    ∷ (120 ∷ [])
    ∷ []

pub arguments-run : (parse decimal arguments).should_exit ≡ false
unfolding packet_inspector.BlockList.same packet_inspector.Cli.worker_count
    packet_inspector.Cli.last_queue packet_inspector.Cli.flag_of packet_inspector.Cli.check_queues
    packet_inspector.Cli.parse_uint packet_inspector.Cli.assign packet_inspector.Cli.parse_args
    packet_inspector.Cli.parse
arguments-run = refl

refuses_one_more :
    (parse decimal (
      (45 ∷ 106 ∷ [])
      ∷ (57 ∷ [])
      ∷ (45 ∷ 110 ∷ 102 ∷ 113 ∷ [])
      ∷ (54 ∷ 53 ∷ 53 ∷ 50 ∷ 56 ∷ [])
      ∷ [])).exit_code
    ≡ 2
unfolding packet_inspector.BlockList.same packet_inspector.Cli.worker_count
    packet_inspector.Cli.last_queue packet_inspector.Cli.flag_of packet_inspector.Cli.check_queues
    packet_inspector.Cli.parse_uint packet_inspector.Cli.assign packet_inspector.Cli.parse_args
    packet_inspector.Cli.parse
refuses_one_more = refl

parse-InRange_example :
    InRange (parse decimal arguments).config
    × (last_queue_num (parse decimal arguments).config + 1
        ≡ (parse decimal arguments).config.queue_num
          + worker_count (parse decimal arguments).config)
parse-InRange_example = parse-InRange decimal arguments arguments-run
