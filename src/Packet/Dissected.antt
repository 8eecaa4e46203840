-- ===== src/Packet/Dissected.antt =====
-- What the dissection of src/packet.cpp makes of datagrams.
use packet_inspector.Base.{
  ℕ, ◌+◌, ◌-◌, ◌*◌, ◌/◌, ◌%◌, ◌<◌, ◌≡◌, refl, ap, sym, ◌∙◌, true, false, ◌&&◌, ◌||◌, some, [], ◌++◌,
  arith, ltb, leb, ◌==◌, Bytes, length, length-append, append-nil, drop, replicate,
}
use packet_inspector.Memory.{ok}
use packet_inspector.Memory.Cursor.{read-drop, span-drop, drop_past}
use packet_inspector.Tls.Records.Fields.{rd16-be16}
use packet_inspector.Packet.Dissect.{
  FlowView, no_flow, parse_tcp, parse_udp, parse_l4, parse_ipv4_body, parse_ipv4, parse_flow,
  route_key,
}
use packet_inspector.Packet.{packet_view, packet_bytes, flow_view}
use packet_inspector.Packet.Wire.{
  be32, TcpHeader, UdpHeader, Transport, tcp, udp, transport_bytes, IsTransport, protocol,
  Ipv4Header, ipv4_bytes, IsDatagram, source_port, destination_port, datagram_flow,
}

-- The flow as the transport header's parser leaves it.
abbrev pub seen : Transport → FlowView → FlowView
seen t flow = record flow {
  ip_proto = protocol t;
  src_port = source_port t;
  dst_port = destination_port t;
  tcp_flags = elim t [ tcp h ↦ h.flags | udp h ↦ flow.tcp_flags ];
}

parse_tcp-transport_bytes :
    (h : TcpHeader) (payload : Bytes) (flow : FlowView)
    → IsTransport (tcp h)
    → parse_tcp (transport_bytes (tcp h) payload) (record flow { ip_proto = 6 })
      ≡ ok (true, seen (tcp h) flow, payload)
unfolding parse_tcp
parse_tcp-transport_bytes h payload flow fits =
    let l4 = transport_bytes (tcp h) payload in
    let size : length l4 ≡ 20 + 4 * h.words + length payload =
      omega (arith, length-append h.options payload, fits.4) in
    let long : ltb (length l4) 20 ≡ false = ground (arith, size) in
    let flags : h.flags % 256 ≡ h.flags = omega (arith, fits.2) in
    let offset : ((5 + h.words) * 16) % 256 / 16 * 4 ≡ 20 + length h.options =
      omega (arith, fits.3, fits.4) in
    let left : length l4 - (20 + length h.options) ≡ length payload = omega (arith, size, fits.4) in
    let inside : (ltb (20 + length h.options) 20 || ltb (length l4) (20 + length h.options))
        ≡ false =
      ground (arith, size, fits.4) in
    let behind : drop (20 + length h.options) l4 ≡ payload ++ [] =
      drop_past 20 l4 h.options payload refl ∙ sym (append-nil payload) in
    rw
      (
        long,
        rd16-be16 l4 0 h.src_port fits.0 refl,
        rd16-be16 l4 2 h.dst_port fits.1 refl,
        read-drop l4 13 refl,
        flags,
        read-drop l4 12 refl,
        offset,
        inside,
        left,
        span-drop l4 (20 + length h.options) payload [] behind (omega (arith, size, fits.4)),
      )
      refl

parse_udp-transport_bytes :
    (h : UdpHeader) (payload : Bytes) (flow : FlowView)
    → 8 + length payload < 65536
    → IsTransport (udp h)
    → parse_udp (transport_bytes (udp h) payload) (record flow { ip_proto = 17 })
      ≡ ok (true, seen (udp h) flow, payload)
unfolding parse_udp
parse_udp-transport_bytes h payload flow small fits =
    let l4 = transport_bytes (udp h) payload in
    let size : length l4 ≡ 8 + length payload = omega arith in
    let long : ltb (length l4) 8 ≡ false = ground (arith, size) in
    let whole : (leb 8 (8 + length payload) && leb (8 + length payload - 8) (length l4 - 8))
        ≡ true =
      ground (arith, size) in
    let left : 8 + length payload - 8 ≡ length payload = omega arith in
    let behind : drop 8 l4 ≡ payload ++ [] = sym (append-nil payload) in
    rw
      (
        long,
        rd16-be16 l4 0 h.src_port fits.0 refl,
        rd16-be16 l4 2 h.dst_port fits.1 refl,
        rd16-be16 l4 4 (8 + length payload) small refl,
        whole,
        left,
        span-drop l4 8 payload [] behind (omega (arith, size)),
      )
      refl

pub parse_l4-transport_bytes :
    (t : Transport) (payload : Bytes) (flow : FlowView)
    → length (transport_bytes t payload) < 65536
    → IsTransport t
    → parse_l4 (protocol t) (transport_bytes t payload) flow ≡ ok (true, seen t flow, payload)
unfolding parse_l4
parse_l4-transport_bytes (tcp h) payload flow small fits =
    parse_tcp-transport_bytes h payload flow fits
parse_l4-transport_bytes (udp h) payload flow small fits =
    parse_udp-transport_bytes h payload flow (omega (arith, small)) fits

protocol-lt : (t : Transport) → protocol t % 256 ≡ protocol t
protocol-lt (tcp h) = refl
protocol-lt (udp h) = refl

-- The flow before the transport header, with the addresses.
abbrev addressed : Ipv4Header → FlowView
addressed h = record no_flow {
  ip_version = 4;
  src_ip = be32 h.src ++ replicate 12 0;
  dst_ip = be32 h.dst ++ replicate 12 0;
}

-- The key does not depend on the payload.
keyed :
    (h : Ipv4Header) (t : Transport) (payload : Bytes)
    → record (seen t (addressed h)) { payload = payload; key = route_key (seen t (addressed h)) }
      ≡ record (datagram_flow h t payload) { key = route_key (datagram_flow h t payload) }
unfolding route_key
keyed h (tcp header) payload = refl
keyed h (udp header) payload = refl

module _ (h : Ipv4Header) (t : Transport) (payload padding : Bytes)
    (fits : IsDatagram h t payload) where
  abbrev whole_bytes : Bytes
  whole_bytes = ipv4_bytes h t payload padding

  length-ipv4_bytes :
      length whole_bytes
      ≡ 20 + length h.options + (length (transport_bytes t payload) + length padding)
  length-ipv4_bytes = omega (
    arith,
    length-append h.options (transport_bytes t payload ++ padding),
    length-append (transport_bytes t payload) padding,
  )

  parse_ipv4_body-ipv4_bytes :
      parse_ipv4_body whole_bytes (20 + length h.options) (record no_flow { ip_version = 4 })
      ≡ ok (true, seen t (addressed h), payload)
  unfolding parse_ipv4_body
  parse_ipv4_body-ipv4_bytes =
      let l4 = transport_bytes t payload in
      let total = 20 + 4 * h.words + length l4 in
      let size = length-ipv4_bytes in
      let single : (h.fragment % 0x2000 == 0) ≡ true = ground (arith, fits.whole) in
      let inside : (leb (20 + length h.options) total && leb total (length whole_bytes)) ≡ true =
        ground (arith, size, fits.options_fit) in
      let left : total - (20 + length h.options) ≡ length l4 = omega (arith, fits.options_fit) in
      let behind : drop (20 + length h.options) whole_bytes ≡ l4 ++ padding =
        drop_past 20 whole_bytes h.options (l4 ++ padding) refl in
      rw
        (
          rd16-be16 whole_bytes 6 h.fragment fits.fragment_fits refl,
          single,
          span-drop whole_bytes 12 (be32 h.src) _ refl (omega (arith, size)),
          span-drop whole_bytes 16 (be32 h.dst) _ refl (omega (arith, size)),
          rd16-be16 whole_bytes 2 total fits.length_fits refl,
          inside,
          read-drop whole_bytes 9 refl,
          protocol-lt t,
          left,
          span-drop whole_bytes (20 + length h.options) l4 padding behind (omega (arith, size)),
          parse_l4-transport_bytes t payload (addressed h) (omega (arith, fits.length_fits))
              fits.transport_fits,
        )
        refl

  parse_flow-ipv4_bytes : parse_flow (some whole_bytes) ≡ ok (true, seen t (addressed h), payload)
  unfolding parse_flow parse_ipv4
  parse_flow-ipv4_bytes =
      let size = length-ipv4_bytes in
      let some_byte : ltb (length whole_bytes) 1 ≡ false = ground (arith, size) in
      let long : ltb (length whole_bytes) 20 ≡ false = ground (arith, size) in
      let first : (64 + (5 + h.words)) % 256 ≡ 64 + (5 + h.words) = omega (arith, fits.few_words) in
      let version : (64 + (5 + h.words)) / 16 ≡ 4 = omega (arith, fits.few_words) in
      let ihl : (64 + (5 + h.words)) % 16 * 4 ≡ 20 + length h.options =
        omega (arith, fits.few_words, fits.options_fit) in
      let inside : (ltb (20 + length h.options) 20
            || ltb (length whole_bytes) (20 + length h.options))
          ≡ false =
        ground (arith, size) in
      rw
        (
          some_byte,
          read-drop whole_bytes 0 refl,
          first,
          version,
          long,
          ihl,
          inside,
          parse_ipv4_body-ipv4_bytes,
        )
        refl

  -- For a TCP segment or a UDP datagram in an IPv4 datagram, laid out by the RFCs with options of any
  -- length that the headers allow, that is no fragment and fits in its length field, and whatever the
  -- link has padded it with: `flow_view` succeeds, with the addresses, the protocol, the ports, the TCP
  -- flags and the payload that were put in.
  pub flow_view-ipv4_bytes :
      (id : ℕ)
      → flow_view (
          packet_view
            (some (ipv4_bytes h t payload padding))
            (length (ipv4_bytes h t payload padding))
            id)
        ≡ ok (
          true,
          record (datagram_flow h t payload) { key = route_key (datagram_flow h t payload) },
        )
  unfolding flow_view packet_bytes
  flow_view-ipv4_bytes id =
      rw
        (
          span-drop whole_bytes 0 whole_bytes [] (sym (append-nil whole_bytes)) (omega arith),
          parse_flow-ipv4_bytes,
        )
        (ap (λ f. ok (true, f)) (keyed h t payload))
