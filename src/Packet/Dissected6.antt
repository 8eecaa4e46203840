-- ===== src/Packet/Dissected6.antt =====
-- What the dissection of src/packet.cpp makes of IPv6 datagrams.
use packet_inspector.Base.{
  ℕ, ◌+◌, ◌/◌, ◌%◌, ◌≡◌, refl, ap, sym, true, false, some, List, [], ◌∷◌, ◌++◌, arith, ltb, leb,
  Bytes, length, length-append, append-nil, drop, replicate,
}
use packet_inspector.Memory.{ok}
use packet_inspector.Memory.Cursor.{read-drop, span-drop, drop_past}
use packet_inspector.Tls.Records.Fields.{rd16-be16}
use packet_inspector.Packet.Dissect.{
  FlowView, no_flow, max_v6_ext_headers, parse_ipv6, parse_flow, route_key,
}
use packet_inspector.Packet.{packet_view, packet_bytes, flow_view}
use packet_inspector.Packet.Wire.{Transport, tcp, udp, transport_bytes, protocol}
use packet_inspector.Packet.Wire6.{
  ExtHeader, first_of, ext_content, chain_bytes, chain_length, AllExtHeaders, Ipv6Header,
  ipv6_bytes, IsDatagram6, datagram6_flow,
}
use packet_inspector.Packet.Dissected.{seen}
use packet_inspector.Packet.Walked.{length-ext_content, first_of-lt, walk_headers-chain_bytes}

length-chain_bytes :
    (xs : List ExtHeader) (proto : ℕ) (rest : Bytes)
    → AllExtHeaders xs
    → length (chain_bytes xs proto rest) ≡ chain_length xs + length rest
length-chain_bytes [] proto rest fits = omega arith
length-chain_bytes (x ∷ xs) proto rest fits = omega (
  arith,
  length-append (ext_content x) (chain_bytes xs proto rest),
  length-ext_content x fits.0,
  length-chain_bytes xs proto rest fits.1,
)

abbrev addressed6 : Ipv6Header → FlowView
addressed6 h = record no_flow { ip_version = 6; src_ip = h.src; dst_ip = h.dst }

keyed6 :
    (h : Ipv6Header) (t : Transport) (payload : Bytes)
    → record (seen t (addressed6 h)) { payload = payload; key = route_key (seen t (addressed6 h)) }
      ≡ record (datagram6_flow h t payload) { key = route_key (datagram6_flow h t payload) }
unfolding route_key
keyed6 h (tcp header) payload = refl
keyed6 h (udp header) payload = refl

-- An address of 16 bytes fills its field.
filled : (a : Bytes) → length a ≡ 16 → a ++ drop (length a) (replicate 16 0) ≡ a
filled a e = rw e (append-nil a)

module _ (h : Ipv6Header) (t : Transport) (payload padding : Bytes)
    (fits : IsDatagram6 h t payload) where
  abbrev whole6_bytes : Bytes
  whole6_bytes = ipv6_bytes h t payload padding

  abbrev chain : Bytes
  chain = chain_bytes h.extensions (protocol t) (transport_bytes t payload ++ padding)

  length-ipv6_bytes :
      length whole6_bytes
      ≡ 40 + chain_length h.extensions + length (transport_bytes t payload) + length padding
  length-ipv6_bytes = omega (
    arith,
    length-append h.src (h.dst ++ chain),
    length-append h.dst chain,
    length-chain_bytes h.extensions (protocol t) (transport_bytes t payload ++ padding)
        fits.extensions_fit,
    length-append (transport_bytes t payload) padding,
    fits.source_fits,
    fits.destination_fits,
  )

  parse_ipv6-ipv6_bytes :
      parse_ipv6 whole6_bytes no_flow ≡ ok (true, seen t (addressed6 h), payload)
  unfolding parse_ipv6
  parse_ipv6-ipv6_bytes =
      let l4 = transport_bytes t payload in
      let plen = chain_length h.extensions + length l4 in
      let size = length-ipv6_bytes in
      let long : ltb (length whole6_bytes) 40 ≡ false = ground (arith, size) in
      let inside : leb (40 + plen) (length whole6_bytes) ≡ true = ground (arith, size) in
      let second : 8 + length h.src ≡ 24 = omega (arith, fits.source_fits) in
      let after_src = rw second at (drop_past 8 whole6_bytes h.src (h.dst ++ chain) refl) in
      let third : 24 + length h.dst ≡ 40 = omega (arith, fits.destination_fits) in
      let after_dst = rw third at (drop_past 24 whole6_bytes h.dst chain after_src) in
      let src_is =
        rw fits.source_fits at
          (span-drop whole6_bytes 8 h.src (h.dst ++ chain) refl (omega (arith, size))) in
      let dst_is =
        rw fits.destination_fits at
          (span-drop whole6_bytes 24 h.dst chain after_src (omega (arith, size))) in
      let byte : first_of h.extensions (protocol t) % 256 ≡ first_of h.extensions (protocol t) =
        omega (arith, first_of-lt h.extensions t fits.extensions_fit) in
      rw
        (
          long,
          rd16-be16 whole6_bytes 4 plen fits.length_fits refl,
          src_is,
          dst_is,
          read-drop whole6_bytes 6 refl,
          byte,
          inside,
          filled h.src fits.source_fits,
          filled h.dst fits.destination_fits,
        )
        (walk_headers-chain_bytes whole6_bytes (40 + plen) (omega (arith, fits.length_fits))
          h.extensions max_v6_ext_headers 40 t payload padding (addressed6 h)
          (omega (arith, fits.few_extensions)) fits.extensions_fit fits.transport_fits
          (omega (arith, fits.length_fits)) after_dst (omega arith) (omega (arith, size)))

  parse_flow-ipv6_bytes : parse_flow (some whole6_bytes) ≡ ok (true, seen t (addressed6 h), payload)
  unfolding parse_flow
  parse_flow-ipv6_bytes =
      let some_byte : ltb (length whole6_bytes) 1 ≡ false = ground (arith, length-ipv6_bytes) in
      let version : (96 + h.class_and_label / 16777216) % 256 / 16 ≡ 6 =
        omega (arith, fits.label_fits) in
      rw (some_byte, read-drop whole6_bytes 0 refl, version, parse_ipv6-ipv6_bytes) refl

  -- For a TCP segment or a UDP datagram in an IPv6 datagram, laid out by the RFCs with up to seven
  -- extension headers of the kinds that the program skips, that fits in its length field, and whatever
  -- the link has padded it with: `flow_view` succeeds, with the addresses, the protocol, the ports, the
  -- TCP flags and the payload that were put in.
  pub flow_view-ipv6_bytes :
      (id : ℕ)
      → flow_view (
          packet_view
            (some (ipv6_bytes h t payload padding))
            (length (ipv6_bytes h t payload padding))
            id)
        ≡ ok (
          true,
          record (datagram6_flow h t payload) { key = route_key (datagram6_flow h t payload) },
        )
  unfolding flow_view packet_bytes
  flow_view-ipv6_bytes id =
      rw
        (
          span-drop whole6_bytes 0 whole6_bytes [] (sym (append-nil whole6_bytes)) (omega arith),
          parse_flow-ipv6_bytes,
        )
        (ap (λ f. ok (true, f)) (keyed6 h t payload))
