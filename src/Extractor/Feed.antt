-- ===== src/Extractor/Feed.antt =====
-- `tick`, `sweep`, `drain_closes`, `flush` and `feed` of src/hostname_extractor.cpp.
use packet_inspector.Base.{
  ℕ, ◌+◌, ◌-◌, ◌/◌, ◌%◌, ◌^◌, Bool, true, false, not, ◌&&◌, Option, none, some, List, [], ◌∷◌, ◌++◌,
  ltb, leb, ◌==◌, if◌then◌else◌, Bytes, length, get_or,
}
use packet_inspector.Memory.{ok}
use packet_inspector.Packet.Dissect.{FlowView, proto_tcp}
use packet_inspector.Packet.{
  Verdict, allow, block, Packet, has_bytes, release_bytes, packet_bytes, flow_view,
}
use packet_inspector.Extractor.Table.{find, erase, update, insert}
use packet_inspector.Extractor.State.{
  waiting, blocking, Conn, new_conn, Event, Reassembler, Extractor, is_blocking, wait_idle_timeout,
  block_idle_timeout, sweep_interval, max_packets_per_conn,
}
use packet_inspector.Extractor.Ring.{publish, park, evict_oldest_blocked}
use packet_inspector.Extractor.Callbacks.{resolve, dispatch_all}

-- `opensTlsHandshake`
unfoldable pub opens_tls_handshake : Bytes → Bool
opens_tls_handshake payload =
    leb 2 (length payload) && get_or payload 0 0 % 256 == 0x16 && get_or payload 1 0 % 256 == 0x03

-- `isClientSyn`: SYN (bit 1) without ACK (bit 4).
unfoldable pub is_client_syn : FlowView → Bool
is_client_syn f = f.tcp_flags / 2 % 2 == 1 && f.tcp_flags / 16 % 2 == 0

-- `(f.tcp_flags & (kTcpSyn | kTcpFin | kTcpRst)) != 0`, which are the bits 0 to 2.
unfoldable pub changes_state : FlowView → Bool
changes_state f = not (f.tcp_flags % 8 == 0)

-- The first test of `feed`: the flow of a packet that is dissectable TCP. (A fault of `flow_view`
-- would be read as no flow.)
unfoldable pub tcp_flow : Packet → Option FlowView
tcp_flow pkt = if not (has_bytes pkt) then none else elim (flow_view pkt) [
  | ok (dissected, f) ↦ if dissected && f.ip_proto == proto_tcp then some f else none
  | _ ↦ none
]

-- The bytes that the reassembler is given.
unfoldable pub raw_bytes : Packet → Option Bytes
raw_bytes pkt = elim (packet_bytes pkt) [ ok bytes ↦ bytes | _ ↦ none ]

-- A list's last packet, without its bytes.
unfoldable pub release_last : List Packet → List Packet
release_last [] = []
release_last (pkt ∷ []) = release_bytes pkt ∷ []
release_last (pkt ∷ next ∷ pkts) = pkt ∷ release_last (next ∷ pkts)

-- `hold`: `f.payload_len > 0`.
abbrev pub holds : FlowView → Bool
holds f = ltb 0 (length f.payload)

-- `sweep` collects the keys of the flows that have been idle for long enough.
unfoldable pub is_expired : ℕ → Conn → Bool
is_expired now c =
    leb (elim c.state [ blocking ↦ block_idle_timeout | waiting ↦ wait_idle_timeout ])
      (now - c.last)

unfoldable pub expired : ℕ → List (ℕ × Conn) → List ℕ
expired now [] = []
expired now ((k, c) ∷ m) = if is_expired now c then k ∷ expired now m else expired now m

unfoldable pub count_blocked : List (ℕ × Conn) → ℕ
count_blocked [] = 0
count_blocked ((k, c) ∷ m) = (if is_blocking (some c) then 1 else 0) + count_blocked m

unfoldable pub waiting_keys : List (ℕ × Conn) → List ℕ
waiting_keys [] = []
waiting_keys ((k, c) ∷ m) = if is_blocking (some c) then waiting_keys m else k ∷ waiting_keys m

module _ {ℓ} {R : Type ℓ} (r : Reassembler R) (policy : Option Bytes → Verdict) where
  -- A call of the reassembler, and the callbacks that it makes.
  unfoldable pub call : List Event × R → Extractor R → Extractor R
  call (events, next) e = dispatch_all policy events (record e { reassembly = next })

  unfoldable pub close_all : List ℕ → Extractor R → Extractor R
  close_all [] e = e
  close_all (token ∷ tokens) e = close_all tokens (call (r.close_connection token e.reassembly) e)

  unfoldable pub drain_closes : Extractor R → Extractor R
  drain_closes e = let e' = close_all e.to_close e in record e' { to_close = [] }

  -- One key of the list that `sweep` has collected.
  unfoldable pub reclaim : ℕ → Extractor R → Extractor R
  reclaim key e = elim (find key e.conns) [
    | none ↦ e
    | some c ↦
        if is_blocking (some c)
        then record e { conns = erase key e.conns }
        else resolve policy key none e
  ]

  unfoldable pub reclaim_all : List ℕ → Extractor R → Extractor R
  reclaim_all [] e = e
  reclaim_all (key ∷ rest) e = reclaim_all rest (reclaim key e)

  unfoldable pub sweep : ℕ → Extractor R → Extractor R
  sweep now e =
      let counted = record e { blocked = count_blocked e.conns } in
      let reclaimed = reclaim_all (expired now e.conns) counted in
      publish (drain_closes (call (r.purge_closed reclaimed.reassembly) reclaimed))

  unfoldable pub tick : ℕ → Extractor R → Extractor R
  tick now e =
      if ltb (now - e.last_sweep) sweep_interval
      then e
      else sweep now (record e { last_sweep = now })

  unfoldable pub resolve_all : List ℕ → Extractor R → Extractor R
  resolve_all [] e = e
  resolve_all (key ∷ rest) e = resolve_all rest (resolve policy key none e)

  unfoldable pub flush : Extractor R → Extractor R
  flush e =
      let resolved = resolve_all (waiting_keys e.conns) e in
      publish (drain_closes (record resolved { conns = [] }))

  -- The work of a full table before a flow is added: a sweep that is due, then the ring.
  unfoldable pub make_room : ℕ → Extractor R → Extractor R
  make_room now e =
      let swept = tick now e in
      if leb swept.max_flows (length swept.conns) then (evict_oldest_blocked swept).0 else swept

  unfoldable pub ensure_room : ℕ → Extractor R → Extractor R
  ensure_room now e = if leb e.max_flows (length e.conns) then make_room now e else e

  -- After the reassembler: the bytes of a held packet have done their job.
  unfoldable pub release_held : ℕ → Extractor R → Extractor R
  release_held key e = elim (find key e.conns) [
    | none ↦ e
    | some c ↦ record e { conns = update key (record c { held = release_last c.held }) e.conns }
  ]

  -- From `reassemblePacket` on.
  unfoldable pub reassemble_packet : ℕ → Packet → Extractor R → Extractor R
  reassemble_packet key pkt e =
      let fed =
        call (r.reassemble (raw_bytes pkt) e.reassembly)
          (record e { current_key = key; feeding = true }) in
      drain_closes (record fed { feeding = false })

  -- A packet of a flow that is being inspected, from `Conn &c = it->second` on.
  unfoldable pub track : ℕ → Packet → FlowView → Conn → Extractor R → Extractor R
  track now pkt f c e =
      let touched = record e { conns = update f.key (record c { last = now }) e.conns } in
      if leb max_packets_per_conn (length c.held)
      then park pkt allow (resolve policy f.key none touched)
      else if not (holds f) && not (changes_state f)
      then park pkt allow touched
      else if holds f
      then release_held f.key (
          reassemble_packet f.key pkt (record e {
            conns = update f.key (record c { last = now; held = c.held ++ pkt ∷ [] }) e.conns;
          }))
      else park pkt allow (reassemble_packet f.key pkt touched)

  -- `conns_.try_emplace`, unless the table is (still) full.
  unfoldable pub start_flow : ℕ → Packet → FlowView → Extractor R → Extractor R
  start_flow now pkt f e =
      if leb e.max_flows (length e.conns)
      then park pkt allow (record e { dropped_at_cap = (e.dropped_at_cap + 1) % 2 ^ 64 })
      else track now pkt f new_conn (record e { conns = insert f.key new_conn e.conns })

  -- A packet of a flow that is not in the table.
  unfoldable pub admit : ℕ → Packet → FlowView → Extractor R → Extractor R
  admit now pkt f e =
      if not (is_client_syn f) && not (opens_tls_handshake f.payload)
      then park pkt allow e
      else start_flow now pkt f (ensure_room now e)

  -- A packet of a flow that is in the table.
  unfoldable pub feed_known : ℕ → Packet → FlowView → Conn → Extractor R → Extractor R
  feed_known now pkt f c e = elim c.state [
    | blocking ↦
        park pkt block (record e { conns = update f.key (record c { last = now }) e.conns })
    | waiting ↦ track now pkt f c e
  ]

  unfoldable pub feed_flow : ℕ → Packet → FlowView → Extractor R → Extractor R
  feed_flow now pkt f e = elim (find f.key e.conns) [
    | none ↦ admit now pkt f e
    | some c ↦ feed_known now pkt f c e
  ]

  unfoldable pub feed : ℕ → Packet → Extractor R → Extractor R
  feed now pkt e =
      let ticked = tick now e in
      publish
        (elim (tcp_flow pkt) [ none ↦ park pkt allow ticked | some f ↦ feed_flow now pkt f ticked ])
