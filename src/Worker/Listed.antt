-- ===== src/Worker/Listed.antt =====
-- From the lines of a block list's file to the verdicts: the policy of src/worker.cpp in the extractor.
use packet_inspector.Base.{
  ℕ, ◌-◌, ◌≤◌, ◌<◌, ◌≡◌, ◌↔◌, refl, sym, subst, ◌∙◌, inl, inr, true, some, List, [], ◌∷◌, ◌++◌,
  Bool-cases, Bytes, length, All,
}
use packet_inspector.Packet.{Packet, Verdict, block}
use packet_inspector.Packet.Dissect.{FlowView}
use packet_inspector.Tls.Wire.{
  Fragment, IsFragment, record_layer, payloads, ClientHello, IsHello, hello_message, sni_of,
}
use packet_inspector.BlockList.{is_hostname_blocked, load}
use packet_inspector.BlockList.File.{IsAsked, load-IsAsked}
use packet_inspector.Extractor.State.{
  Reassembler, Extractor, wait_idle_timeout, max_packets_per_conn, max_stream_bytes,
}
use packet_inspector.Extractor.Feed.{holds, tcp_flow, tick, feed}
use packet_inspector.Extractor.Followed.Fed.{callbacks}
use packet_inspector.Extractor.Followed.Spoken.{client_bytes, IsOpen}
use packet_inspector.Extractor.Followed.Turns.{Turn, spoken, payload_ids}
use packet_inspector.Extractor.Followed.Conversation.{Waits}
use packet_inspector.Extractor.Followed.Named.{IsDecided, Waits-decides_hello}
use packet_inspector.Worker.{policy}

policy-IsAsked :
    (lines : List Bytes) (host : Bytes)
    → (policy (load lines) (some host) ≡ block) ↔ IsAsked lines host
unfolding policy
policy-IsAsked lines host =
    let asked = load-IsAsked lines host in
    elim (Bool-cases (is_hostname_blocked (load lines) host)) [
      | inl hit ↦ ((λ b. asked.0 hit), λ a. rw hit refl)
      | inr miss ↦ ((λ b. cc (rw miss at b)), λ a. cc (sym miss ∙ asked.1 a))
    ]

-- For an extractor with the worker's policy and the block list of a file's lines: a flow has been
-- followed from its first packet on, which started it in a tidy table with room, between two packets;
-- since then the extractor has been fed its packets and those of other flows, has ticked, and has handed
-- its verdicts over, each feed and tick less than 10 seconds behind the flow's last packet; the flow was
-- not settled by one of its packets, and fewer than 32 of them had bytes. When, again within 10 seconds,
-- a packet of the flow with bytes comes for which the reassembler does not end the connection, and which
-- brings the client's bytes to at most 32 KB that begin with the TLS records of a ClientHello whose
-- lengths fit their fields, whose body has at most 65535 bytes and which names a host, in non-empty
-- records of at most 2^14 bytes: `feed` decides all packets of the flow that have had bytes, once each
-- and in order, behind what the sweep that may be due decides, all with one verdict, which is BLOCK
-- exactly if a line asks to block the host; then the flow is gone if they are let through, and blocked
-- if not.
pub Waits-decides_listed {ℓ} :
    {R : Type ℓ} (r : Reassembler R) (lines : List Bytes) (host : Bytes) {key : ℕ} {own : List Turn}
    {stream : Bytes} {held : List Packet} {last : ℕ} {e : Extractor R} (h : ClientHello)
    (fs : List Fragment) (extra rest : Bytes) (now : ℕ) (pkt : Packet) (f : FlowView)
    → Waits r (policy (load lines)) key own stream held last e
    → now - last < wait_idle_timeout
    → tcp_flow pkt ≡ some f
    → f.key ≡ key
    → holds f ≡ true
    → length (payload_ids own) < max_packets_per_conn
    → IsOpen (callbacks r (policy (load lines)) now pkt e)
    → spoken own ++ client_bytes (callbacks r (policy (load lines)) now pkt e)
      ≡ record_layer fs ++ rest
    → length (record_layer fs ++ rest) ≤ max_stream_bytes
    → IsHello h
    → All IsFragment fs
    → payloads fs ≡ hello_message h ++ extra
    → sni_of h.extensions ≡ some host
    → (v : Verdict) × ((v ≡ block) ↔ IsAsked lines host)
      × IsDecided v key
          (payload_ids own ++ pkt.id ∷ [])
          (tick r (policy (load lines)) now e)
          (feed r (policy (load lines)) now pkt e)
Waits-decides_listed r lines host {key} {own} {e = e} h fs extra rest now pkt f way soon is_tcp same
      carries few lasts says fits w sizes joined named =
    let p = policy (load lines) in
    (
      p (some host),
      policy-IsAsked lines host,
      subst
          (λ name.
            IsDecided (p name) key (payload_ids own ++ pkt.id ∷ []) (tick r p now e)
              (feed r p now pkt e))
          named
          (Waits-decides_hello r p h fs extra rest now pkt f way soon is_tcp same carries few lasts
            says fits w sizes joined),
    )
