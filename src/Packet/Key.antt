-- ===== src/Packet/Key.antt =====
-- The flow key of src/packet.cpp, in the two directions of a connection.
use packet_inspector.Base.{ℕ, ◌^◌, ◌<◌, ◌≡◌, arith, ltb, if◌then◌else◌}
use packet_inspector.Packet.Dissect.{FlowView, endpoint_hash, route_key}

-- The flow of a packet that travels the other way.
abbrev pub reply : FlowView → FlowView
reply f = record f {
  src_ip = f.dst_ip;
  dst_ip = f.src_ip;
  src_port = f.dst_port;
  dst_port = f.src_port;
}

ordered : (a b : ℕ) → (if ltb a b then a else b) ≡ (if ltb b a then b else a)
ordered a b = ground arith

ordered' : (a b : ℕ) → (if ltb a b then b else a) ≡ (if ltb b a then a else b)
ordered' a b = ground arith

-- Two flows whose endpoints are each other's, with the same protocol, have the same key, whatever
-- else they carry.
pub route_key-reply :
    (f g : FlowView)
    → g.src_ip ≡ f.dst_ip
    → g.src_port ≡ f.dst_port
    → g.dst_ip ≡ f.src_ip
    → g.dst_port ≡ f.src_port
    → g.ip_proto ≡ f.ip_proto
    → route_key g ≡ route_key f
unfolding route_key
route_key-reply f g a b c d e =
    let x = endpoint_hash f.src_ip f.src_port in
    let y = endpoint_hash f.dst_ip f.dst_port in rw (a, b, c, d, e, ordered y x, ordered' y x)

pub route_key-lt : (f : FlowView) → route_key f < 2 ^ 32
unfolding route_key
route_key-lt f = omega arith
