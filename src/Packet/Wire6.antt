-- ===== src/Packet/Wire6.antt =====
-- IPv6 and its extension headers as RFC 8200 lays them out, written independently of src/packet.cpp.
use packet_inspector.Base.{
  ℕ, ◌+◌, ◌*◌, ◌/◌, ◌%◌, ◌^◌, ◌<◌, ◌≡◌, ◌⊎◌, List, [], ◌∷◌, ◌++◌, Bytes, length,
}
use packet_inspector.Tls.Wire.{be16}
use packet_inspector.Packet.Dissect.{FlowView}
use packet_inspector.Packet.Wire.{
  be32, Transport, transport_bytes, IsTransport, protocol, source_port, destination_port, flags_of,
}

-- A header of the kind 0, 43, 60 or 135, of 8 bytes and so many blocks of 8 bytes; and a fragment header
-- of a datagram that is not cut, with the bits behind its offset.
pub data ExtHeader : Type 0 where
  options : ℕ → ℕ → Bytes → ExtHeader
  atomic : ℕ → ℕ → ExtHeader

abbrev pub kind : ExtHeader → ℕ
kind (options k blocks content) = k
kind (atomic bits ident) = 44

-- What a header is preceded by as the next one.
abbrev pub first_of : List ExtHeader → ℕ → ℕ
first_of [] proto = proto
first_of (x ∷ xs) proto = kind x

abbrev pub ext_content : ExtHeader → Bytes
ext_content (options k blocks content) = blocks ∷ content
ext_content (atomic bits ident) = 0 ∷ (be16 bits ++ be32 ident)

abbrev pub chain_bytes : List ExtHeader → ℕ → Bytes → Bytes
chain_bytes [] proto rest = rest
chain_bytes (x ∷ xs) proto rest = first_of xs proto ∷ (ext_content x ++ chain_bytes xs proto rest)

abbrev pub ext_length : ExtHeader → ℕ
ext_length (options k blocks content) = 8 + 8 * blocks
ext_length (atomic bits ident) = 8

abbrev pub chain_length : List ExtHeader → ℕ
chain_length [] = 0
chain_length (x ∷ xs) = ext_length x + chain_length xs

abbrev pub IsExtHeader : ExtHeader → Type 0
IsExtHeader (options k blocks content) =
    ((k ≡ 0) ⊎ ((k ≡ 43) ⊎ ((k ≡ 60) ⊎ (k ≡ 135))))
    × (blocks < 256)
    × (length content ≡ 6 + 8 * blocks)
IsExtHeader (atomic bits ident) = bits < 8

abbrev pub AllExtHeaders : List ExtHeader → Type 0
AllExtHeaders [] = Unit
AllExtHeaders (x ∷ xs) = IsExtHeader x × AllExtHeaders xs

-- The traffic class and the flow label are one number; the addresses are of 16 bytes.
pub record Ipv6Header : Type 0 where
  pub class_and_label : ℕ
  pub hop_limit : ℕ
  pub src : Bytes
  pub dst : Bytes
  pub extensions : List ExtHeader

abbrev pub ipv6_bytes : Ipv6Header → Transport → Bytes → Bytes → Bytes
ipv6_bytes h t payload padding =
    (96 + h.class_and_label / 16777216)
    ∷ (h.class_and_label / 65536 % 256)
    ∷ (h.class_and_label / 256 % 256)
    ∷ (h.class_and_label % 256)
    ∷ (be16 (chain_length h.extensions + length (transport_bytes t payload))
        ++ first_of h.extensions (protocol t)
          ∷ h.hop_limit
          ∷ (h.src
              ++ (h.dst
                  ++ chain_bytes h.extensions (protocol t) (transport_bytes t payload ++ padding))))

-- At most seven extension headers, as the program looks at eight headers, and all lengths fit.
pub record IsDatagram6 (h : Ipv6Header) (t : Transport) (payload : Bytes) : Type 0 where
  pub label_fits : h.class_and_label < 2 ^ 28
  pub source_fits : length h.src ≡ 16
  pub destination_fits : length h.dst ≡ 16
  pub few_extensions : length h.extensions < 8
  pub extensions_fit : AllExtHeaders h.extensions
  pub length_fits : chain_length h.extensions + length (transport_bytes t payload) < 65536
  pub transport_fits : IsTransport t

-- What the flow of the datagram has to be, but for its key.
abbrev pub datagram6_flow : Ipv6Header → Transport → Bytes → FlowView
datagram6_flow h t payload = record {
  ip_version = 6;
  ip_proto = protocol t;
  src_ip = h.src;
  dst_ip = h.dst;
  src_port = source_port t;
  dst_port = destination_port t;
  payload = payload;
  tcp_flags = flags_of t;
  key = 0;
}
