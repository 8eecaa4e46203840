-- ===== src/Extractor/Followed/Fed.antt =====
-- A packet of a flow, in `feed` of src/hostname_extractor.cpp and on its own.
use packet_inspector.Base.{
  ℕ, ◌<◌, ◌≡◌, refl, true, false, not, ◌&&◌, ◌||◌, Option, none, some, List, [], arith, leb,
  leb-eq-false, Bytes, length,
}
use packet_inspector.Packet.{Packet, Verdict}
use packet_inspector.Packet.Dissect.{FlowView}
use packet_inspector.Extractor.Table.{find, insert}
use packet_inspector.Extractor.State.{
  waiting, Conn, new_conn, Decided, Event, Reassembler, Extractor,
}
use packet_inspector.Extractor.Ring.{publish}
use packet_inspector.Extractor.Feed.{
  opens_tls_handshake, is_client_syn, tcp_flow, is_expired, raw_bytes, tick, track, ensure_room,
  start_flow, admit, feed_known, feed_flow, feed,
}
use packet_inspector.Extractor.Conserve.Tables.{IsTidy, find-insert_self, insert-IsTidy}
use packet_inspector.Extractor.Conserve.Sweep.{tick-Kept}
use packet_inspector.Extractor.Stable.Sweep.{tick-keeps}
use packet_inspector.Extractor.Idle.{IsIdle-IsStable}
use packet_inspector.Extractor.Isolated.{tick-spares}
use packet_inspector.Extractor.Followed.{Outcome, waits_on, is_settled, observe}
use packet_inspector.Extractor.Followed.Heard.{when_waiting}
use packet_inspector.Extractor.Followed.Tracked.{Shows, track-Shows}

module _ {ℓ} {R : Type ℓ} (r : Reassembler R) (policy : Option Bytes → Verdict) where
  -- The callbacks for a packet that is fed at the time `now`, behind the sweep that may be due.
  abbrev pub callbacks : ℕ → Packet → Extractor R → List Event
  callbacks now pkt e = (r.reassemble (raw_bytes pkt) (tick r policy now e).reassembly).0

  publish-Shows :
      (ds : List Decided) (key last : ℕ) (o : Outcome) (e : Extractor R)
      → Shows r policy ds key last o e
      → Shows r policy ds key last o (publish e)
  unfolding publish
  publish-Shows ds key last (waits_on stream held out) e h = h
  publish-Shows ds key last (is_settled v out) e h = h

  feed_known-Shows :
      (now : ℕ) (pkt : Packet) (f : FlowView) (c : Conn) (e : Extractor R)
      → IsTidy e.conns
      → e.feeding ≡ false
      → find f.key e.conns ≡ some c
      → c.state ≡ waiting
      → Shows r policy e.decided f.key now
          (observe policy f pkt (r.reassemble (raw_bytes pkt) e.reassembly).0 c.stream c.held)
          (feed_flow r policy now pkt f e)
  unfolding feed_flow feed_known
  feed_known-Shows now pkt f c e t idle there is =
      rw (there, feed_flow)
        (rw (feed_known, when_waiting c.state _ (track r policy now pkt f c e) is)
          (track-Shows r policy now pkt f c e t idle there is))

  -- Between two packets, on a table in which blocked flows hold nothing and no key stands twice: for a
  -- packet of a flow that waits, whose last packet is not yet 10 seconds old, `feed` decides what the
  -- flow on its own decides, behind what the sweep that may be due has decided; afterwards the flow
  -- waits with the stream and the held packets that it has on its own, or it is settled as it is on its
  -- own, and no packet is in the reassembler.
  pub feed-Shows :
      (now : ℕ) (pkt : Packet) (f : FlowView) (c : Conn) (e : Extractor R)
      → IsTidy e.conns
      → e.feeding ≡ false
      → tcp_flow pkt ≡ some f
      → find f.key e.conns ≡ some c
      → c.state ≡ waiting
      → is_expired now c ≡ false
      → Shows r policy
          (tick r policy now e).decided
          f.key
          now
          (observe policy f pkt (callbacks now pkt e) c.stream c.held)
          (feed r policy now pkt e)
  unfolding feed
  feed-Shows now pkt f c e t idle is_tcp there is fresh =
      let ticked = tick r policy now e in
      let s = tick-spares r policy now f.key c e t idle there is fresh in
      let k = tick-Kept r policy 0 now e t in
      rw is_tcp (
        publish-Shows ticked.decided f.key now _ (feed_flow r policy now pkt f ticked)
          (feed_known-Shows now pkt f c ticked k.tidy s.1 s.0 is))

  -- The same for a packet that starts a flow, in a table with room: a flow with no stream and no packet
  -- held.
  pub feed_first-Shows :
      (now : ℕ) (pkt : Packet) (f : FlowView) (e : Extractor R)
      → IsTidy e.conns
      → e.feeding ≡ false
      → tcp_flow pkt ≡ some f
      → find f.key e.conns ≡ none
      → (is_client_syn f || opens_tls_handshake f.payload) ≡ true
      → length e.conns < e.max_flows
      → Shows r policy
          (tick r policy now e).decided
          f.key
          now
          (observe policy f pkt (callbacks now pkt e) [] [])
          (feed r policy now pkt e)
  unfolding feed feed_flow admit start_flow ensure_room
  feed_first-Shows now pkt f e t idle is_tcp new opens room =
      let ticked = tick r policy now e in
      let k = tick-Kept r policy 0 now e t in
      let calm =
        tick-keeps r policy (IsIdle-IsStable policy) (λ s bytes p feeding. tt) now e tt t idle in
      let starts : (not (is_client_syn f) && not (opens_tls_handshake f.payload)) ≡ false =
        ground arith in
      let free : leb ticked.max_flows (length ticked.conns) ≡ false =
        leb-eq-false _ _ (omega (arith, k.no_more, k.same_cap, room)) in
      rw is_tcp (
        publish-Shows ticked.decided f.key now _ (feed_flow r policy now pkt f ticked) (
          rw (feed_flow, k.still_new f.key new)
            (rw (admit, starts)
              (rw (ensure_room, free)
                (rw (start_flow, free)
                  (track-Shows r policy now pkt f new_conn
                    (record ticked { conns = insert f.key new_conn ticked.conns })
                    (insert-IsTidy f.key new_conn ticked.conns (λ b. refl) (k.still_new f.key new)
                      k.tidy)
                    calm (find-insert_self f.key new_conn ticked.conns) refl))))))
