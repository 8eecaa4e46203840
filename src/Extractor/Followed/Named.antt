-- ===== src/Extractor/Followed/Named.antt =====
-- The packet with which a flow has said its hostname, in src/hostname_extractor.cpp.
use packet_inspector.Base.{
  ℕ, ◌-◌, ◌≤◌, ◌<◌, ◌≡◌, refl, sym, ap, subst, ◌∙◌, true, Option, some, List, [], ◌∷◌, ◌++◌, arith,
  leb-eq-false, Bytes, length, All,
}
use packet_inspector.Packet.{Packet, Verdict}
use packet_inspector.Packet.Dissect.{FlowView}
use packet_inspector.Tls.Hello.Names.{answer}
use packet_inspector.Tls.Wire.{
  Fragment, IsFragment, record_layer, payloads, ClientHello, IsHello, hello_message, sni_of,
}
use packet_inspector.Tls.Correct.{extract_hostname-record_layer}
use packet_inspector.Extractor.State.{
  Reassembler, Extractor, wait_idle_timeout, max_packets_per_conn, max_stream_bytes,
}
use packet_inspector.Extractor.Callbacks.{hostname_in}
use packet_inspector.Extractor.Feed.{holds, tcp_flow, tick, feed}
use packet_inspector.Extractor.Resolved.{decided_with}
use packet_inspector.Extractor.Followed.{is_settled, observe, IsLeft}
use packet_inspector.Extractor.Followed.Tracked.{observe_held, Shows}
use packet_inspector.Extractor.Followed.Fed.{callbacks}
use packet_inspector.Extractor.Followed.Spoken.{
  client_bytes, IsOpen, hostname_in-small, hear-answer,
}
use packet_inspector.Extractor.Followed.Turns.{Turn, spoken, ids, payload_ids, ids-append}
use packet_inspector.Extractor.Followed.Conversation.{Waits, turn-Shows, Waits-IsFollowed}

length-ids : (ps : List Packet) → length (ids ps) ≡ length ps
length-ids [] = refl
length-ids (p ∷ ps) = omega (arith, length-ids ps)

-- The flow is settled: the packets with these ids, in this order, are all decided with the verdict,
-- behind those that had been, and the flow is gone or blocked.
pub record IsDecided {ℓ} {R : Type ℓ} (v : Verdict) (key : ℕ) (sent : List ℕ)
    (before after : Extractor R) : Type 0 where
  pub kept : List Packet
  pub kept_ids : ids kept ≡ sent
  pub decided_is : after.decided ≡ before.decided ++ decided_with v kept
  pub left : IsLeft v key after.conns

module _ {ℓ} {R : Type ℓ} (r : Reassembler R) (policy : Option Bytes → Verdict) where
  -- A packet that brings the client's bytes to a hostname, or to its absence, within the limits.
  pub Waits-IsDecided :
      {key : ℕ} {own : List Turn} {stream : Bytes} {held : List Packet} {last : ℕ} {e : Extractor R}
      (name : Option Bytes) (now : ℕ) (pkt : Packet) (f : FlowView)
      → Waits r policy key own stream held last e
      → now - last < wait_idle_timeout
      → tcp_flow pkt ≡ some f
      → f.key ≡ key
      → holds f ≡ true
      → length (payload_ids own) < max_packets_per_conn
      → IsOpen (callbacks r policy now pkt e)
      → length (spoken own ++ client_bytes (callbacks r policy now pkt e)) ≤ max_stream_bytes
      → hostname_in (spoken own ++ client_bytes (callbacks r policy now pkt e)) ≡ answer name
      → IsDecided
          (policy name)
          key
          (payload_ids own ++ pkt.id ∷ [])
          (tick r policy now e)
          (feed r policy now pkt e)
  Waits-IsDecided {key} {own} {stream} {held} {e = e} name now pkt f way soon is_tcp same carries
        few lasts fits is =
      let h = Waits-IsFollowed r policy way in
      let xs = callbacks r policy now pkt e in
      let short : length held < max_packets_per_conn =
        omega (arith, few, length-ids held, ap length h.held_ids) in
      let room = leb-eq-false max_packets_per_conn (length held) short in
      let fits' =
        subst (λ s. length (s ++ client_bytes xs) ≤ max_stream_bytes) (sym h.stream_is) fits in
      let is' =
        subst (λ s. hostname_in (s ++ client_bytes xs) ≡ answer name) (sym h.stream_is) is in
      let heard = hear-answer xs stream name lasts h.asks fits' is' in
      let outcome : observe policy f pkt xs stream held
          ≡ is_settled (policy name) (decided_with (policy name) (held ++ pkt ∷ [])) =
        observe_held policy f pkt xs stream held room carries ∙ (rw heard refl) in
      let shown =
        subst
          (λ o. Shows r policy (tick r policy now e).decided key now o (feed r policy now pkt e))
          outcome (turn-Shows r policy now pkt f h soon is_tcp same) in
      record {
        kept = held ++ pkt ∷ [];
        kept_ids = ids-append held (pkt ∷ []) ∙ ap (λ s. s ++ pkt.id ∷ []) h.held_ids;
        decided_is = shown.1;
        left = shown.0;
      }

  -- The same where the client's bytes begin with TLS records of a well-formed ClientHello.
  pub Waits-decides_hello :
      {key : ℕ} {own : List Turn} {stream : Bytes} {held : List Packet} {last : ℕ} {e : Extractor R}
      (h : ClientHello) (fs : List Fragment) (extra rest : Bytes) (now : ℕ) (pkt : Packet)
      (f : FlowView)
      → Waits r policy key own stream held last e
      → now - last < wait_idle_timeout
      → tcp_flow pkt ≡ some f
      → f.key ≡ key
      → holds f ≡ true
      → length (payload_ids own) < max_packets_per_conn
      → IsOpen (callbacks r policy now pkt e)
      → spoken own ++ client_bytes (callbacks r policy now pkt e) ≡ record_layer fs ++ rest
      → length (record_layer fs ++ rest) ≤ max_stream_bytes
      → IsHello h
      → All IsFragment fs
      → payloads fs ≡ hello_message h ++ extra
      → IsDecided
          (policy (sni_of h.extensions))
          key
          (payload_ids own ++ pkt.id ∷ [])
          (tick r policy now e)
          (feed r policy now pkt e)
  Waits-decides_hello h fs extra rest now pkt f way soon is_tcp same carries few lasts says fits w
        sizes joined =
      Waits-IsDecided (sni_of h.extensions) now pkt f way soon is_tcp same carries few lasts
        (rw says fits)
        (rw says (
          hostname_in-small (record_layer fs ++ rest) (omega (arith, fits))
            (extract_hostname-record_layer h fs extra rest w sizes joined (omega (arith, fits)))))
