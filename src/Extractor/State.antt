-- ===== src/Extractor/State.antt =====
-- The data of include/hostname_extractor.hpp, and the interface of the TCP reassembler.
use packet_inspector.Base.{
  ℕ, ◌*◌, ◌/◌, Bool, true, false, not, Option, none, some, List, [], ltb, ◌==◌, if◌then◌else◌,
  Bytes, replicate,
}
use packet_inspector.Packet.{Verdict, Packet}

-- `State`: Wait and Block.
pub data FlowState : Type 0 where
  waiting blocking : FlowState

pub record Conn : Type 0 where
  pub state : FlowState
  pub held : List Packet
  pub stream : Bytes
  pub pcpp_key : ℕ
  pub pcpp_closed : Bool
  pub last : ℕ

abbrev pub new_conn : Conn
new_conn = record {
  state = waiting;
  held = [];
  stream = [];
  pcpp_key = 0;
  pcpp_closed = false;
  last = 0;
}

abbrev pub is_blocking : Option Conn → Bool
is_blocking none = false
is_blocking (some c) = elim c.state [ waiting ↦ false | blocking ↦ true ]

pub record Decided : Type 0 where
  pub pkt : Packet
  pub verdict : Verdict

-- A callback of the reassembler: a side is 0 for the first sender, the client.
pub data Event : Type 0 where
  connection_start : ℕ → Event
  message_ready : ℕ → ℕ → Bytes → Event
  connection_end : Event

-- `pcpp::TcpReassembly`, which the program does not implement. The callbacks that the program
-- registers never call into it, so a call is its list of callbacks and its next state.
pub record Reassembler {ℓ} (R : Type ℓ) : Type ℓ where
  pub reassemble : Option Bytes → R → List Event × R
  pub close_connection : ℕ → R → List Event × R
  pub purge_closed : R → List Event × R

pub record Extractor {ℓ} (R : Type ℓ) : Type ℓ where
  pub decided : List Decided
  pub reassembly : R
  pub to_close : List ℕ
  pub conns : List (ℕ × Conn)
  pub current_key : ℕ
  pub feeding : Bool
  pub max_flows : ℕ
  pub max_blocked : ℕ
  pub block_ring : List ℕ
  pub block_next : ℕ
  pub last_sweep : ℕ
  pub flows : ℕ
  pub blocked : ℕ
  pub dropped_at_cap : ℕ

-- The entry of a flow that has been decided against.
abbrev pub block_conn : Conn → Conn
block_conn c = record c { state = blocking; held = []; stream = [] }

-- Times are nanoseconds of the steady clock.
abbrev pub second : ℕ
second = 1000000000

abbrev pub wait_idle_timeout : ℕ
wait_idle_timeout = 10 * second

abbrev pub block_idle_timeout : ℕ
block_idle_timeout = 60 * second

abbrev pub sweep_interval : ℕ
sweep_interval = 1 * second

abbrev pub max_packets_per_conn : ℕ
max_packets_per_conn = 32

abbrev pub max_stream_bytes : ℕ
max_stream_bytes = 32 * 1024

-- The constructor.
unfoldable pub new_extractor {ℓ} : {R : Type ℓ} → R → ℕ → ℕ → Extractor R
new_extractor reassembly max_flows max_blocked =
    let flows = if max_flows == 0 then 1 else max_flows in
    let quarter = flows / 4 in
    let share =
      if not (max_blocked == 0) then max_blocked else if ltb 1 quarter then quarter else 1 in
    let blocked_cap = if ltb flows share then flows else share in
    record {
      decided = [];
      reassembly = reassembly;
      to_close = [];
      conns = [];
      current_key = 0;
      feeding = false;
      max_flows = flows;
      max_blocked = blocked_cap;
      block_ring = replicate blocked_cap 0;
      block_next = 0;
      last_sweep = 0;
      flows = 0;
      blocked = 0;
      dropped_at_cap = 0;
    }
