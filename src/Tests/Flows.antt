-- ===== src/Tests/Flows.antt =====
-- The extractor, with a reassembler that passes each segment's bytes on.
use packet_inspector.Base.{
  ℕ, ◌+◌, ◌≡◌, refl, List, [], ◌∷◌, Option, none, some, Bytes, false, take, drop,
}
use packet_inspector.Packet.{Packet, Verdict, allow, block}
use packet_inspector.Extractor.State.{
  blocking, new_conn, Reassembler, message_ready, Extractor, Decided,
}
use packet_inspector.Extractor.Table.{find}
use packet_inspector.Extractor.Feed.{feed, tick, flush}
use packet_inspector.Extractor.Conserve.Tables.{count_decided, times, IsTidy}
use packet_inspector.Extractor.Conserve.Feed.{feed-keeps_packets}
use packet_inspector.Extractor.Conserve.Flush.{flush-decides_all}
use packet_inspector.Tests.{packet, sample_stream}

abbrev pub in_order : Reassembler ℕ
in_order = record {
  reassemble = λ bytes n. elim bytes [
    | none ↦ ([], n)
    | some b ↦ (message_ready 0 7 (drop 40 b) ∷ [], n + 1)
  ];
  close_connection = λ token n. ([], n);
  purge_closed = λ n. ([], n);
}

abbrev pub strict : Option Bytes → Verdict
strict none = allow
strict (some name) = block

abbrev pub fresh : Extractor ℕ
fresh = record {
  decided = [];
  reassembly = 0;
  to_close = [];
  conns = [];
  current_key = 0;
  feeding = false;
  max_flows = 8;
  max_blocked = 2;
  block_ring = 0 ∷ 0 ∷ [];
  block_next = 0;
  last_sweep = 0;
  flows = 0;
  blocked = 0;
  dropped_at_cap = 0;
}

abbrev pub first_half : Packet
first_half = packet 1 24 (take 30 sample_stream)

abbrev pub second_half : Packet
second_half = packet 2 24 (drop 30 sample_stream)

waits_for_the_second_half : (feed in_order strict 5 first_half fresh).decided ≡ []
unfolding packet_inspector.Memory.read packet_inspector.Memory.span packet_inspector.Memory.rd16
    packet_inspector.Tls.after_collect packet_inspector.Tls.extract_hostname
    packet_inspector.Tls.Records.rd24 packet_inspector.Tls.Records.is_other_record
    packet_inspector.Tls.Records.learn_length packet_inspector.Tls.Records.join_step
    packet_inspector.Tls.Records.join_records packet_inspector.Tls.Records.join_all
    packet_inspector.Tls.Records.fast_path packet_inspector.Tls.Records.has_other_major
    packet_inspector.Tls.Records.collect_payload packet_inspector.Tls.Records.check_major
    packet_inspector.Tls.Records.collect_handshake packet_inspector.Tls.Hello.walk
    packet_inspector.Tls.Hello.name_step packet_inspector.Tls.Hello.walk_names
    packet_inspector.Tls.Hello.server_name packet_inspector.Tls.Hello.extension_step
    packet_inspector.Tls.Hello.walk_extensions packet_inspector.Tls.Hello.parse_extensions
    packet_inspector.Tls.Hello.parse_compression packet_inspector.Tls.Hello.parse_cipher_suites
    packet_inspector.Tls.Hello.parse_body packet_inspector.Tls.Hello.parse_client_hello
    packet_inspector.Packet.move_packet packet_inspector.Packet.materialize
    packet_inspector.Packet.packet_bytes packet_inspector.Packet.flow_view
    packet_inspector.Packet.flow_key packet_inspector.Packet.Dissect.parse_tcp
    packet_inspector.Packet.Dissect.parse_udp packet_inspector.Packet.Dissect.parse_l4
    packet_inspector.Packet.Dissect.parse_ipv4_body packet_inspector.Packet.Dissect.parse_ipv4
    packet_inspector.Packet.Dissect.skip_header packet_inspector.Packet.Dissect.walk_headers
    packet_inspector.Packet.Dissect.parse_ipv6 packet_inspector.Packet.Dissect.hash_bytes
    packet_inspector.Packet.Dissect.endpoint_hash packet_inspector.Packet.Dissect.route_key
    packet_inspector.Packet.Dissect.parse_flow packet_inspector.Extractor.Table.find
    packet_inspector.Extractor.Table.erase packet_inspector.Extractor.Table.update
    packet_inspector.Extractor.Table.insert packet_inspector.Extractor.Table.keys
    packet_inspector.Extractor.Ring.publish packet_inspector.Extractor.Ring.park
    packet_inspector.Extractor.Ring.park_all packet_inspector.Extractor.Ring.forget_blocked
    packet_inspector.Extractor.Ring.remember_blocked packet_inspector.Extractor.Ring.evict
    packet_inspector.Extractor.Ring.evict_oldest_blocked
    packet_inspector.Extractor.Callbacks.hostname_in
    packet_inspector.Extractor.Callbacks.defer_close packet_inspector.Extractor.Callbacks.settle
    packet_inspector.Extractor.Callbacks.resolve_conn packet_inspector.Extractor.Callbacks.resolve
    packet_inspector.Extractor.Callbacks.on_connection_start
    packet_inspector.Extractor.Callbacks.act_on packet_inspector.Extractor.Callbacks.on_client_data
    packet_inspector.Extractor.Callbacks.on_message_ready
    packet_inspector.Extractor.Callbacks.on_connection_end
    packet_inspector.Extractor.Callbacks.dispatch packet_inspector.Extractor.Callbacks.dispatch_all
    packet_inspector.Extractor.Feed.opens_tls_handshake
    packet_inspector.Extractor.Feed.is_client_syn packet_inspector.Extractor.Feed.changes_state
    packet_inspector.Extractor.Feed.tcp_flow packet_inspector.Extractor.Feed.raw_bytes
    packet_inspector.Extractor.Feed.release_last packet_inspector.Extractor.Feed.is_expired
    packet_inspector.Extractor.Feed.expired packet_inspector.Extractor.Feed.count_blocked
    packet_inspector.Extractor.Feed.waiting_keys packet_inspector.Extractor.Feed.call
    packet_inspector.Extractor.Feed.close_all packet_inspector.Extractor.Feed.drain_closes
    packet_inspector.Extractor.Feed.reclaim packet_inspector.Extractor.Feed.reclaim_all
    packet_inspector.Extractor.Feed.sweep packet_inspector.Extractor.Feed.tick
    packet_inspector.Extractor.Feed.resolve_all packet_inspector.Extractor.Feed.flush
    packet_inspector.Extractor.Feed.make_room packet_inspector.Extractor.Feed.ensure_room
    packet_inspector.Extractor.Feed.release_held packet_inspector.Extractor.Feed.reassemble_packet
    packet_inspector.Extractor.Feed.track packet_inspector.Extractor.Feed.start_flow
    packet_inspector.Extractor.Feed.admit packet_inspector.Extractor.Feed.feed_known
    packet_inspector.Extractor.Feed.feed_flow packet_inspector.Extractor.Feed.feed
waits_for_the_second_half = refl

abbrev verdicts_of : List Decided → List (ℕ × Verdict)
verdicts_of [] = []
verdicts_of (d ∷ ds) = (d.pkt.id, d.verdict) ∷ verdicts_of ds

blocks_both_halves :
    verdicts_of
      (feed in_order strict 6 second_half (feed in_order strict 5 first_half fresh)).decided
    ≡ (1, block) ∷ (2, block) ∷ []
unfolding packet_inspector.Memory.read packet_inspector.Memory.span packet_inspector.Memory.rd16
    packet_inspector.Tls.after_collect packet_inspector.Tls.extract_hostname
    packet_inspector.Tls.Records.rd24 packet_inspector.Tls.Records.is_other_record
    packet_inspector.Tls.Records.learn_length packet_inspector.Tls.Records.join_step
    packet_inspector.Tls.Records.join_records packet_inspector.Tls.Records.join_all
    packet_inspector.Tls.Records.fast_path packet_inspector.Tls.Records.has_other_major
    packet_inspector.Tls.Records.collect_payload packet_inspector.Tls.Records.check_major
    packet_inspector.Tls.Records.collect_handshake packet_inspector.Tls.Hello.walk
    packet_inspector.Tls.Hello.name_step packet_inspector.Tls.Hello.walk_names
    packet_inspector.Tls.Hello.server_name packet_inspector.Tls.Hello.extension_step
    packet_inspector.Tls.Hello.walk_extensions packet_inspector.Tls.Hello.parse_extensions
    packet_inspector.Tls.Hello.parse_compression packet_inspector.Tls.Hello.parse_cipher_suites
    packet_inspector.Tls.Hello.parse_body packet_inspector.Tls.Hello.parse_client_hello
    packet_inspector.Packet.move_packet packet_inspector.Packet.materialize
    packet_inspector.Packet.packet_bytes packet_inspector.Packet.flow_view
    packet_inspector.Packet.flow_key packet_inspector.Packet.Dissect.parse_tcp
    packet_inspector.Packet.Dissect.parse_udp packet_inspector.Packet.Dissect.parse_l4
    packet_inspector.Packet.Dissect.parse_ipv4_body packet_inspector.Packet.Dissect.parse_ipv4
    packet_inspector.Packet.Dissect.skip_header packet_inspector.Packet.Dissect.walk_headers
    packet_inspector.Packet.Dissect.parse_ipv6 packet_inspector.Packet.Dissect.hash_bytes
    packet_inspector.Packet.Dissect.endpoint_hash packet_inspector.Packet.Dissect.route_key
    packet_inspector.Packet.Dissect.parse_flow packet_inspector.Extractor.Table.find
    packet_inspector.Extractor.Table.erase packet_inspector.Extractor.Table.update
    packet_inspector.Extractor.Table.insert packet_inspector.Extractor.Table.keys
    packet_inspector.Extractor.Ring.publish packet_inspector.Extractor.Ring.park
    packet_inspector.Extractor.Ring.park_all packet_inspector.Extractor.Ring.forget_blocked
    packet_inspector.Extractor.Ring.remember_blocked packet_inspector.Extractor.Ring.evict
    packet_inspector.Extractor.Ring.evict_oldest_blocked
    packet_inspector.Extractor.Callbacks.hostname_in
    packet_inspector.Extractor.Callbacks.defer_close packet_inspector.Extractor.Callbacks.settle
    packet_inspector.Extractor.Callbacks.resolve_conn packet_inspector.Extractor.Callbacks.resolve
    packet_inspector.Extractor.Callbacks.on_connection_start
    packet_inspector.Extractor.Callbacks.act_on packet_inspector.Extractor.Callbacks.on_client_data
    packet_inspector.Extractor.Callbacks.on_message_ready
    packet_inspector.Extractor.Callbacks.on_connection_end
    packet_inspector.Extractor.Callbacks.dispatch packet_inspector.Extractor.Callbacks.dispatch_all
    packet_inspector.Extractor.Feed.opens_tls_handshake
    packet_inspector.Extractor.Feed.is_client_syn packet_inspector.Extractor.Feed.changes_state
    packet_inspector.Extractor.Feed.tcp_flow packet_inspector.Extractor.Feed.raw_bytes
    packet_inspector.Extractor.Feed.release_last packet_inspector.Extractor.Feed.is_expired
    packet_inspector.Extractor.Feed.expired packet_inspector.Extractor.Feed.count_blocked
    packet_inspector.Extractor.Feed.waiting_keys packet_inspector.Extractor.Feed.call
    packet_inspector.Extractor.Feed.close_all packet_inspector.Extractor.Feed.drain_closes
    packet_inspector.Extractor.Feed.reclaim packet_inspector.Extractor.Feed.reclaim_all
    packet_inspector.Extractor.Feed.sweep packet_inspector.Extractor.Feed.tick
    packet_inspector.Extractor.Feed.resolve_all packet_inspector.Extractor.Feed.flush
    packet_inspector.Extractor.Feed.make_room packet_inspector.Extractor.Feed.ensure_room
    packet_inspector.Extractor.Feed.release_held packet_inspector.Extractor.Feed.reassemble_packet
    packet_inspector.Extractor.Feed.track packet_inspector.Extractor.Feed.start_flow
    packet_inspector.Extractor.Feed.admit packet_inspector.Extractor.Feed.feed_known
    packet_inspector.Extractor.Feed.feed_flow packet_inspector.Extractor.Feed.feed
blocks_both_halves = refl

feed-keeps_packets_example :
    (times 1 (feed in_order strict 5 first_half fresh) ≡ 1)
    × IsTidy (feed in_order strict 5 first_half fresh).conns
feed-keeps_packets_example = feed-keeps_packets in_order strict 1 5 first_half fresh tt

-- A flow with one packet held, and one that is blocked.
abbrev pub holding : Extractor ℕ
holding = record fresh {
  conns =
      (9, record new_conn { held = first_half ∷ []; last = 5 })
      ∷ (4, record new_conn { state = blocking })
      ∷ [];
}

pub holding-IsTidy : IsTidy holding.conns
unfolding find
holding-IsTidy = ((λ b. cc), refl, ((λ b. refl), refl, tt))

flush-decides_all_example :
    (count_decided 1 (flush in_order strict holding).decided ≡ 1)
    × ((flush in_order strict holding).conns ≡ [])
flush-decides_all_example = flush-decides_all in_order strict 1 holding holding-IsTidy
