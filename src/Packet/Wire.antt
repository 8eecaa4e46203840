-- ===== src/Packet/Wire.antt =====
-- IPv4, TCP and UDP as RFC 791, RFC 9293 and RFC 768 lay them out, written independently of
-- src/packet.cpp.
use packet_inspector.Base.{
  ℕ, ◌+◌, ◌*◌, ◌/◌, ◌%◌, ◌≤◌, ◌<◌, ◌≡◌, [], ◌∷◌, ◌++◌, Bytes, length, replicate,
}
use packet_inspector.Tls.Wire.{be16}
use packet_inspector.Packet.Dissect.{FlowView}

abbrev pub be32 : ℕ → Bytes
be32 n = (n / 16777216 % 256) ∷ (n / 65536 % 256) ∷ (n / 256 % 256) ∷ (n % 256) ∷ []

-- A TCP segment's header; the options are so many words of 4 bytes.
pub record TcpHeader : Type 0 where
  pub src_port : ℕ
  pub dst_port : ℕ
  pub seq : ℕ
  pub ack : ℕ
  pub flags : ℕ
  pub window : ℕ
  pub checksum : ℕ
  pub urgent : ℕ
  pub words : ℕ
  pub options : Bytes

pub record UdpHeader : Type 0 where
  pub src_port : ℕ
  pub dst_port : ℕ
  pub checksum : ℕ

pub data Transport : Type 0 where
  tcp : TcpHeader → Transport
  udp : UdpHeader → Transport

abbrev pub tcp_tail : TcpHeader → Bytes → Bytes
tcp_tail h payload =
    ((5 + h.words) * 16)
    ∷ h.flags
    ∷ (be16 h.window ++ (be16 h.checksum ++ (be16 h.urgent ++ (h.options ++ payload))))

abbrev pub transport_bytes : Transport → Bytes → Bytes
transport_bytes (tcp h) payload =
    be16 h.src_port ++ (be16 h.dst_port ++ (be32 h.seq ++ (be32 h.ack ++ tcp_tail h payload)))
transport_bytes (udp h) payload =
    be16 h.src_port
    ++ (be16 h.dst_port ++ (be16 (8 + length payload) ++ (be16 h.checksum ++ payload)))

-- The fields fit in their widths.
abbrev pub IsTransport : Transport → Type 0
IsTransport (tcp h) =
    (h.src_port < 65536)
    × (h.dst_port < 65536)
    × (h.flags < 256)
    × (h.words ≤ 10)
    × (length h.options ≡ 4 * h.words)
IsTransport (udp h) = (h.src_port < 65536) × (h.dst_port < 65536)

abbrev pub protocol : Transport → ℕ
protocol (tcp h) = 6
protocol (udp h) = 17

-- An IPv4 header; `fragment` is the field of the flags and the fragment offset.
pub record Ipv4Header : Type 0 where
  pub service : ℕ
  pub ident : ℕ
  pub fragment : ℕ
  pub ttl : ℕ
  pub checksum : ℕ
  pub src : ℕ
  pub dst : ℕ
  pub words : ℕ
  pub options : Bytes

-- The datagram, with what the link has padded it with.
abbrev pub ipv4_bytes : Ipv4Header → Transport → Bytes → Bytes → Bytes
ipv4_bytes h t payload padding =
    (64 + (5 + h.words))
    ∷ h.service
    ∷ (be16 (20 + 4 * h.words + length (transport_bytes t payload))
        ++ (be16 h.ident
            ++ (be16 h.fragment
                ++ h.ttl
                  ∷ protocol t
                  ∷ (be16 h.checksum
                      ++ (be32 h.src
                          ++ (be32 h.dst
                              ++ (h.options ++ (transport_bytes t payload ++ padding))))))))

-- The datagram is whole, neither a fragment nor followed by others, and its length fits.
pub record IsDatagram (h : Ipv4Header) (t : Transport) (payload : Bytes) : Type 0 where
  pub whole : h.fragment % 8192 ≡ 0
  pub fragment_fits : h.fragment < 65536
  pub few_words : h.words ≤ 10
  pub options_fit : length h.options ≡ 4 * h.words
  pub length_fits : 20 + 4 * h.words + length (transport_bytes t payload) < 65536
  pub transport_fits : IsTransport t

abbrev pub source_port : Transport → ℕ
source_port (tcp h) = h.src_port
source_port (udp h) = h.src_port

abbrev pub destination_port : Transport → ℕ
destination_port (tcp h) = h.dst_port
destination_port (udp h) = h.dst_port

abbrev pub flags_of : Transport → ℕ
flags_of (tcp h) = h.flags
flags_of (udp h) = 0

-- What the flow of the datagram has to be, but for its key.
abbrev pub datagram_flow : Ipv4Header → Transport → Bytes → FlowView
datagram_flow h t payload = record {
  ip_version = 4;
  ip_proto = protocol t;
  src_ip = be32 h.src ++ replicate 12 0;
  dst_ip = be32 h.dst ++ replicate 12 0;
  src_port = source_port t;
  dst_port = destination_port t;
  payload = payload;
  tcp_flags = flags_of t;
  key = 0;
}
