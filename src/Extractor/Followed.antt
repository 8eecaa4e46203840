-- ===== src/Extractor/Followed.antt =====
-- One flow on its own: what src/hostname_extractor.cpp does with the packets of a flow that waits, as a
-- function of the flow's stream and held packets alone, without the table, the ring or the other flows.
pub mod Settled
pub mod Heard
pub mod Observed
pub mod Tracked
pub mod Fed
pub mod Spoken
pub mod Turns
pub mod Conversation
pub mod Named
use packet_inspector.Base.{
  ℕ, ◌≡◌, true, false, Option, none, some, List, [], ◌∷◌, ◌++◌, ltb, leb, ◌==◌, if◌then◌else◌,
  Bytes, length,
}
use packet_inspector.Tls.Records.{found, not_found, need_more}
use packet_inspector.Packet.{Packet, Verdict, allow, block}
use packet_inspector.Packet.Dissect.{FlowView}
use packet_inspector.Extractor.Table.{find}
use packet_inspector.Extractor.State.{
  waiting, blocking, Conn, Decided, Event, connection_start, message_ready, connection_end,
  Extractor, max_stream_bytes, max_packets_per_conn,
}
use packet_inspector.Extractor.Callbacks.{hostname_in}
use packet_inspector.Extractor.Feed.{holds, changes_state, release_last}
use packet_inspector.Extractor.Resolved.{decided_with}

-- A flow's stream is still read, or the flow is settled, with its hostname if it has one.
pub data Course : Type 0 where
  reading : Bytes → Course
  settled : Option Bytes → Course

unfoldable pub judge : Bytes → Course
judge stream = elim (hostname_in stream) [
  | found host ↦ settled (some host)
  | not_found ↦ settled none
  | need_more ↦ if ltb max_stream_bytes (length stream) then settled none else reading stream
]

-- The callbacks of one call of the reassembler, for a flow whose stream is read.
unfoldable pub hear : List Event → Bytes → Course
hear [] stream = reading stream
hear (connection_start flow_key ∷ xs) stream = hear xs stream
hear (connection_end ∷ xs) stream = settled none
hear (message_ready side flow_key bytes ∷ xs) stream =
    elim (if side == 0 then judge (stream ++ bytes) else reading stream) [
      | reading longer ↦ hear xs longer
      | settled hostname ↦ settled hostname
    ]

-- The flow waits on, with a stream and held packets, or it is settled with a verdict; and the packets
-- that are decided at that.
pub data Outcome : Type 0 where
  waits_on : Bytes → List Packet → List Decided → Outcome
  is_settled : Verdict → List Decided → Outcome

-- A packet of the flow, with the callbacks that the reassembler makes for it.
unfoldable pub observe :
    (Option Bytes → Verdict) → FlowView → Packet → List Event → Bytes → List Packet → Outcome
observe policy f pkt xs stream held =
    let passed = record { pkt = pkt; verdict = allow } ∷ [] in
    if leb max_packets_per_conn (length held)
    then is_settled (policy none) (decided_with (policy none) held ++ passed)
    else if holds f
    then elim (hear xs stream) [
      | reading longer ↦ waits_on longer (release_last (held ++ pkt ∷ [])) []
      | settled hostname ↦
          is_settled (policy hostname) (decided_with (policy hostname) (held ++ pkt ∷ []))
    ]
    else if changes_state f
    then elim (hear xs stream) [
      | reading longer ↦ waits_on longer held passed
      | settled hostname ↦
          is_settled (policy hostname) (decided_with (policy hostname) held ++ passed)
    ]
    else waits_on stream held passed

-- What the table has of a flow that waits.
pub record IsWaiting (key : ℕ) (stream : Bytes) (held : List Packet) (last : ℕ)
    (m : List (ℕ × Conn)) : Type 0 where
  pub entry : Conn
  pub there : find key m ≡ some entry
  pub waits : entry.state ≡ waiting
  pub same_stream : entry.stream ≡ stream
  pub same_held : entry.held ≡ held
  pub same_last : entry.last ≡ last

-- What it has of one that is settled: nothing if it is let through, else that it is blocked.
abbrev pub IsLeft : Verdict → ℕ → List (ℕ × Conn) → Type 0
IsLeft allow key m = find key m ≡ none
IsLeft block key m = (c : Conn) × (find key m ≡ some c) × (c.state ≡ blocking)
