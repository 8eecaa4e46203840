-- ===== src/Cli.antt =====
-- src/cli.cpp and include/config.hpp: from the arguments behind the program's name to a configuration.
-- `strtoull` is a parameter. What `usage` and `fail` print is not modelled.
mod Options
pub mod Ranges
pub mod Accepted
pub mod Values
pub mod Rendered
use Options.*
use packet_inspector.Base.{
  ℕ, ◌+◌, ◌-◌, ◌*◌, ◌/◌, ◌%◌, ◌^◌, Bool, true, false, not, ◌&&◌, ◌||◌, Option, none, some, List, [],
  ◌∷◌, ltb, ◌==◌, if◌then◌else◌, Bytes, length,
}
use packet_inspector.BlockList.{same}

-- `-1`, no pinning, is `none`.
pub record Config : Type 0 where
  pub blocklist_path : Bytes
  pub queue_num : ℕ
  pub queue_maxlen : ℕ
  pub jobs : ℕ
  pub recv_buf_bytes : ℕ
  pub max_blocked_flows : ℕ
  pub pin_first_cpu : Option ℕ
  pub pin_stride : ℕ
  pub verbose : Bool
  pub passthrough : Bool
  pub stats_interval_s : ℕ

abbrev pub default_config : Config
default_config = record {
  blocklist_path = default_path;
  queue_num = 0;
  queue_maxlen = 8192;
  jobs = 4;
  recv_buf_bytes = 256 * 1024 * 1024;
  max_blocked_flows = 0;
  pin_first_cpu = none;
  pin_stride = 1;
  verbose = false;
  passthrough = false;
  stats_interval_s = 0;
}

unfoldable pub worker_count : Config → ℕ
worker_count c = if ltb 0 c.jobs then c.jobs else 1

-- `queue_num + worker_count() - 1`, a `size_t`.
unfoldable pub last_queue : Config → ℕ
last_queue c = (c.queue_num + worker_count c + 2 ^ 64 - 1) % 2 ^ 64

unfoldable pub last_queue_num : Config → ℕ
last_queue_num c = last_queue c % 2 ^ 16

unfoldable pub recv_buf_per_worker : Config → ℕ
recv_buf_per_worker c =
    let share = c.recv_buf_bytes / worker_count c in
    if ltb share (1024 * 1024) then 1024 * 1024 else share

pub record ParseResult : Type 0 where
  pub config : Config
  pub should_exit : Bool
  pub exit_code : ℕ

-- What `strtoull` gives: the value, whether it set `errno`, and how much of the string it used.
pub record Number : Type 0 where
  pub value : ℕ
  pub failed : Bool
  pub used : ℕ

-- The options that take a value.
pub data Setting : Type 0 where
  jobs_of queue_of size_of max_blocked_of pin_of stride_of rcvbuf_of path_of stats_of : Setting

-- What an argument is.
pub data Flag : Type 0 where
  asks_help asks_verbose asks_passthrough unknown positional : Flag
  sets : Setting → Flag

abbrev pub is_option : Bytes → Bool
is_option [] = false
is_option (c ∷ cs) = c == 45

-- The chain of tests on `arg`.
unfoldable pub flag_of : Bytes → Flag
flag_of arg =
    if same arg flag_h || same arg flag_help
    then asks_help
    else if same arg flag_j
    then sets jobs_of
    else if same arg flag_nfq
    then sets queue_of
    else if same arg flag_nfq_size
    then sets size_of
    else if same arg flag_max_blocked
    then sets max_blocked_of
    else if same arg flag_pin
    then sets pin_of
    else if same arg flag_pin_stride
    then sets stride_of
    else if same arg flag_rcvbuf
    then sets rcvbuf_of
    else if same arg flag_b
    then sets path_of
    else if same arg flag_v || same arg flag_verbose
    then asks_verbose
    else if same arg flag_passthrough
    then asks_passthrough
    else if same arg flag_stats
    then sets stats_of
    else if is_option arg
    then unknown
    else positional

-- `fail`
abbrev pub usage_error : Config → ParseResult
usage_error c = record { config = c; should_exit = true; exit_code = 2 }

-- The check behind the loop.
unfoldable pub check_queues : Config → ParseResult
check_queues c =
    if ltb 65535 (last_queue c)
    then usage_error c
    else record { config = c; should_exit = false; exit_code = 0 }

module _ (strtoull : Bytes → Number) where
  unfoldable pub parse_uint : Bytes → ℕ → ℕ → Option ℕ
  parse_uint s lo hi =
      let n = strtoull s in
      if length s == 0
        || (n.failed || n.used == 0 || not (n.used == length s) || ltb n.value lo || ltb hi n.value)
      then none
      else some n.value

  -- The branch of an option, once its value is there; `none` where the value is refused.
  unfoldable pub assign : Setting → Bytes → Config → Option Config
  assign jobs_of v c = elim (parse_uint v 1 4096) [
    | none ↦ none
    | some n ↦ some (record c { jobs = n })
  ]
  assign queue_of v c = elim (parse_uint v 0 65535) [
    | none ↦ none
    | some n ↦ some (record c { queue_num = n % 2 ^ 16 })
  ]
  assign size_of v c = elim (parse_uint v 1 4294967295) [
    | none ↦ none
    | some n ↦ some (record c { queue_maxlen = n % 2 ^ 32 })
  ]
  assign max_blocked_of v c = elim (parse_uint v 1 4294967295) [
    | none ↦ none
    | some n ↦ some (record c { max_blocked_flows = n })
  ]
  assign pin_of v c = elim (parse_uint v 0 4095) [
    | none ↦ none
    | some n ↦ some (record c { pin_first_cpu = some n })
  ]
  assign stride_of v c = elim (parse_uint v 1 64) [
    | none ↦ none
    | some n ↦ some (record c { pin_stride = n })
  ]
  assign rcvbuf_of v c = elim (parse_uint v 1 2147483647) [
    | none ↦ none
    | some n ↦ some (record c { recv_buf_bytes = n })
  ]
  assign path_of v c = some (record c { blocklist_path = v })
  assign stats_of v c = elim (parse_uint v 0 86400) [
    | none ↦ none
    | some n ↦ some (record c { stats_interval_s = n })
  ]

  -- The loop, on the option whose value comes next, if one does.
  unfoldable pub parse_args : Option Setting → List Bytes → Config → ParseResult
  parse_args none [] c = check_queues c
  parse_args (some s) [] c = usage_error c
  parse_args (some s) (v ∷ args) c = elim (assign s v c) [
    | none ↦ usage_error c
    | some c' ↦ parse_args none args c'
  ]
  parse_args none (arg ∷ args) c = elim (flag_of arg) [
    | asks_help ↦ record { config = c; should_exit = true; exit_code = 0 }
    | asks_verbose ↦ parse_args none args (record c { verbose = true })
    | asks_passthrough ↦ parse_args none args (record c { passthrough = true })
    | unknown ↦ usage_error c
    | positional ↦ parse_args none args (record c { blocklist_path = arg })
    | sets s ↦ parse_args (some s) args c
  ]

  unfoldable pub parse : List Bytes → ParseResult
  parse args = parse_args none args default_config
