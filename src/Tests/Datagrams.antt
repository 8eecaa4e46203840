-- ===== src/Tests/Datagrams.antt =====
-- A TCP segment in an IPv4 datagram with options, and a UDP datagram behind two IPv6 extension headers.
use packet_inspector.Base.{◌≡◌, refl, inl, true, some, [], ◌∷◌, arith, Bytes, length, replicate}
use packet_inspector.Memory.{ok}
use packet_inspector.Packet.{packet_view, flow_view}
use packet_inspector.Packet.Dissect.{route_key}
use packet_inspector.Packet.Wire.{
  Transport, tcp, udp, Ipv4Header, ipv4_bytes, IsDatagram, datagram_flow,
}
use packet_inspector.Packet.Wire6.{
  options, atomic, Ipv6Header, ipv6_bytes, IsDatagram6, datagram6_flow,
}
use packet_inspector.Packet.Dissected.{flow_view-ipv4_bytes}
use packet_inspector.Packet.Dissected6.{flow_view-ipv6_bytes}

abbrev segment_header : Transport
segment_header = tcp (record {
  src_port = 40000;
  dst_port = 443;
  seq = 1;
  ack = 2;
  flags = 24;
  window = 1024;
  checksum = 0;
  urgent = 0;
  words = 1;
  options = 1 ∷ 1 ∷ 1 ∷ 0 ∷ [];
})

abbrev header4 : Ipv4Header
header4 = record {
  service = 0;
  ident = 7;
  fragment = 16384;
  ttl = 64;
  checksum = 0;
  src = 167772161;
  dst = 167772162;
  words = 1;
  options = 148 ∷ 4 ∷ 0 ∷ 0 ∷ [];
}

abbrev hello : Bytes
hello = 22 ∷ 3 ∷ 1 ∷ []

header4-IsDatagram : IsDatagram header4 segment_header hello
header4-IsDatagram = record {
  whole = refl;
  fragment_fits = omega arith;
  few_words = omega arith;
  options_fit = refl;
  length_fits = omega arith;
  transport_fits = (omega arith, omega arith, omega arith, omega arith, refl);
}

flow_view-ipv4_bytes_example :
    flow_view (
      packet_view
        (some (ipv4_bytes header4 segment_header hello (0 ∷ 0 ∷ [])))
        (length (ipv4_bytes header4 segment_header hello (0 ∷ 0 ∷ [])))
        3)
    ≡ ok (
      true,
      record (datagram_flow header4 segment_header hello) {
        key = route_key (datagram_flow header4 segment_header hello);
      },
    )
flow_view-ipv4_bytes_example =
    flow_view-ipv4_bytes header4 segment_header hello (0 ∷ 0 ∷ []) header4-IsDatagram 3

abbrev query : Transport
query = udp (record { src_port = 5353; dst_port = 53; checksum = 0 })

abbrev header6 : Ipv6Header
header6 = record {
  class_and_label = 5;
  hop_limit = 64;
  src = replicate 16 1;
  dst = replicate 16 2;
  extensions = options 0 0 (1 ∷ 4 ∷ 0 ∷ 0 ∷ 0 ∷ 0 ∷ []) ∷ atomic 0 9 ∷ [];
}

header6-IsDatagram6 : IsDatagram6 header6 query hello
header6-IsDatagram6 = record {
  label_fits = omega arith;
  source_fits = refl;
  destination_fits = refl;
  few_extensions = omega arith;
  extensions_fit = ((inl refl, omega arith, refl), (omega arith, tt));
  length_fits = omega arith;
  transport_fits = (omega arith, omega arith);
}

flow_view-ipv6_bytes_example :
    flow_view (
      packet_view
        (some (ipv6_bytes header6 query hello []))
        (length (ipv6_bytes header6 query hello []))
        4)
    ≡ ok (
      true,
      record (datagram6_flow header6 query hello) {
        key = route_key (datagram6_flow header6 query hello);
      },
    )
flow_view-ipv6_bytes_example = flow_view-ipv6_bytes header6 query hello [] header6-IsDatagram6 4
