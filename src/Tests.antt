-- ===== src/Tests.antt =====
-- Runs of the model at concrete inputs: a ClientHello in two records, and the packets that carry it.
mod Hostnames
mod Packets
mod Flows
mod Workers
mod Arguments
mod Written
mod Polls
mod Histories
mod Conversations
mod Programs
mod Services
mod Datagrams
use packet_inspector.Base.{
  ℕ, ◌/◌, ◌%◌, Option, none, some, List, [], ◌∷◌, ◌++◌, Bytes, length, take, drop, replicate, ◌+◌,
}
use packet_inspector.Tls.Wire.{
  ClientHello, server_names, other, Fragment, hello_message, record_layer,
}
use packet_inspector.Packet.{Packet, packet_view}

abbrev pub host : Bytes
host = 97 ∷ 98 ∷ 46 ∷ 99 ∷ []

abbrev pub sample_hello : ClientHello
sample_hello = record {
  version = 3 ∷ 3 ∷ [];
  random = replicate 32 7;
  session_id = 5 ∷ [];
  cipher_suites = 0x13 ∷ 1 ∷ [];
  compression_methods = 0 ∷ [];
  extensions =
      other 10 (0 ∷ 2 ∷ 0 ∷ 29 ∷ [])
      ∷ server_names (record { name_type = 0; name = host } ∷ [])
      ∷ [];
}

abbrev pub two_records : List Fragment
two_records =
    record { minor = 1; payload = take 20 (hello_message sample_hello) }
    ∷ record { minor = 3; payload = drop 20 (hello_message sample_hello) }
    ∷ []

abbrev pub sample_stream : Bytes
sample_stream = record_layer two_records

-- A TCP segment over IPv4 from port 40000 of 10.0.0.1 to port 443 of 10.0.0.2.
abbrev pub segment : ℕ → Bytes → Bytes
segment flags payload =
    0x45
    ∷ 0
    ∷ ((40 + length payload) / 256)
    ∷ ((40 + length payload) % 256)
    ∷ 0
    ∷ 0
    ∷ 0
    ∷ 0
    ∷ 64
    ∷ 6
    ∷ 0
    ∷ 0
    ∷ 10
    ∷ 0
    ∷ 0
    ∷ 1
    ∷ 10
    ∷ 0
    ∷ 0
    ∷ 2
    ∷ 156
    ∷ 64
    ∷ 1
    ∷ 187
    ∷ 0
    ∷ 0
    ∷ 0
    ∷ 1
    ∷ 0
    ∷ 0
    ∷ 0
    ∷ 0
    ∷ 0x50
    ∷ flags
    ∷ 0
    ∷ 0
    ∷ 0
    ∷ 0
    ∷ 0
    ∷ 0
    ∷ payload

abbrev pub packet : ℕ → ℕ → Bytes → Packet
packet id flags payload =
    packet_view (some (segment flags payload)) (length (segment flags payload)) id
