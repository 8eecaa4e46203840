-- ===== src/Tests/Packets.antt =====
-- Dissection of one packet.
use packet_inspector.Base.{◌≡◌, refl, some, [], ◌∷◌, arith}
use packet_inspector.Memory.{Returns, ok}
use packet_inspector.Packet.{Packet, packet_view, materialize, flow_view}
use packet_inspector.Packet.Owned.{owned_copy, materialize-flow_view}
use packet_inspector.Packet.Dissect.{FlowView, route_key, no_flow}
use packet_inspector.Packet.Bounds.{IsPacket, IsDissected, flow_view-Returns}
use packet_inspector.Packet.Key.{reply, route_key-reply}
use packet_inspector.Tests.{packet, segment}

abbrev short_packet : Packet
short_packet = packet 4 2 []

short_packet-IsPacket : IsPacket short_packet
short_packet-IsPacket = omega arith

flow_view-Returns_example : Returns (flow_view short_packet) (IsDissected short_packet)
flow_view-Returns_example = flow_view-Returns short_packet (omega arith) short_packet-IsPacket

abbrev flow : FlowView
flow = record no_flow {
  src_ip = 10 ∷ 1 ∷ [];
  dst_ip = 10 ∷ 2 ∷ [];
  src_port = 40000;
  dst_port = 443;
  ip_proto = 6;
}

route_key-reply_example : route_key (record (reply flow) { tcp_flags = 18 }) ≡ route_key flow
route_key-reply_example =
    route_key-reply flow (record (reply flow) { tcp_flags = 18 }) refl refl refl refl refl

materialize-flow_view_example :
    (materialize (packet_view (some (segment 2 [])) 40 4) ≡ ok (owned_copy (segment 2 []) 40 4))
    × (flow_view (owned_copy (segment 2 []) 40 4)
        ≡ flow_view (packet_view (some (segment 2 [])) 40 4))
materialize-flow_view_example = materialize-flow_view (segment 2 []) 40 4 (omega arith)
