-- ===== src/Packet.antt =====
-- include/packet.hpp and src/packet.cpp: a packet's three states (view, owned, shell) and its
-- dissection into a flow. The bytes behind a pointer are a list, null is `none`.
pub mod Dissect
pub mod Transports
pub mod Bounds
pub mod Key
pub mod Owned
pub mod Wire
pub mod Dissected
pub mod Wire6
pub mod Walked
pub mod Dissected6
use packet_inspector.Base.{
  ℕ, ◌*◌, ◌+◌, Bool, true, false, Option, none, some, [], ltb, if◌then◌else◌, Bytes,
}
use packet_inspector.Memory.{Outcome, ok, ◌>>=◌, span}
use Dissect.{FlowView, no_flow, parse_flow, route_key}

pub data Verdict : Type 0 where
  allow block : Verdict

pub record Packet : Type 0 where
  pub view : Option Bytes
  pub owned : Option Bytes
  pub len : ℕ
  pub id : ℕ
  pub verdict : Verdict
  pub pending : Bool

-- `Packet()`, which is also what `clear()` leaves of one whose buffer has been moved.
abbrev pub empty_packet : Packet
empty_packet = record {
  view = none;
  owned = none;
  len = 0;
  id = 0;
  verdict = allow;
  pending = false;
}

-- `Packet(data, len, id)`
abbrev pub packet_view : Option Bytes → ℕ → ℕ → Packet
packet_view bytes len id = record empty_packet { view = bytes; len = len; id = id; pending = true }

-- The move constructor: the new packet, and what is left of the old one.
unfoldable pub move_packet : Packet → Packet × Packet
move_packet o = (o, empty_packet)

-- `data()`
abbrev pub data_of : Packet → Option Bytes
data_of p = elim p.view [ some bytes ↦ some bytes | none ↦ p.owned ]

abbrev pub has_bytes : Packet → Bool
has_bytes p = elim (data_of p) [ some bytes ↦ true | none ↦ false ]

abbrev pub is_view : Packet → Bool
is_view p = elim p.view [ some bytes ↦ true | none ↦ false ]

-- From view to owned, by a copy of `len` bytes.
unfoldable pub materialize : Packet → Outcome Packet
materialize p = elim p.view [
  | none ↦ ok p
  | some bytes ↦
      if ltb 0 p.len
      then (do buf ← span bytes 0 p.len; ok (record p { owned = some buf; view = none }))
      else ok (record p { view = none })
]

abbrev pub release_bytes : Packet → Packet
release_bytes p = record p { owned = none; view = none }

abbrev pub set_verdict : Verdict → Packet → Packet
set_verdict v p = record p { verdict = v }

abbrev pub clear_pending : Packet → Packet
clear_pending p = record p { pending = false }

-- The bytes `[data(), data() + len())`, if there are any.
unfoldable pub packet_bytes : Packet → Outcome (Option Bytes)
packet_bytes p = elim (data_of p) [
  | none ↦ ok none
  | some bytes ↦ do b ← span bytes 0 p.len; ok (some b)
]

-- Whether the packet could be dissected, and the flow, which is written to in either case.
unfoldable pub flow_view : Packet → Outcome (Bool × FlowView)
flow_view p = do
  bytes ← packet_bytes p
  (dissected, flow, payload) ← parse_flow bytes
  ok (
      if dissected
      then (true, record flow { payload = payload; key = route_key flow })
      else (false, flow))

unfoldable pub flow_key : Packet → Outcome ℕ
flow_key p = do (dissected, flow) ← flow_view p; ok (if dissected then flow.key else 0)
