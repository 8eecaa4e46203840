-- ===== src/Tests/Workers.antt =====
-- The block list and a worker: two segments of a blocked hello come in, and the worker stops.
use packet_inspector.Base.{
  ℕ, ◌+◌, ◌≡◌, ◌↔◌, refl, true, false, List, [], ◌∷◌, some, Bytes, length, take, drop,
}
use packet_inspector.Packet.{Verdict, allow, block}
use packet_inspector.BlockList.{BlockList, load, is_hostname_blocked}
use packet_inspector.BlockList.Suffixes.{Blocked, is_hostname_blocked-Blocked}
use packet_inspector.BlockList.File.{IsAsked, load-IsAsked}
use packet_inspector.Worker.{new_worker, Queue, Arrival, Worker, loop}
use packet_inspector.Worker.Answers.{count_answers, count_turns, loop-answers_all}
use packet_inspector.Worker.Clean.{fed_in, AllDue}
use packet_inspector.Worker.Dropped.{loop-drops_due}
use packet_inspector.Tests.{host, segment, sample_stream}
use packet_inspector.Tests.Flows.{in_order, fresh, holding, holding-IsTidy}

-- A comment, "*.c" with a space in it, and "x".
abbrev pub entries : List Bytes
entries = (35 ∷ 120 ∷ []) ∷ (42 ∷ 46 ∷ 32 ∷ 99 ∷ []) ∷ [] ∷ (120 ∷ []) ∷ []

reads_the_entries : load entries ≡ record { exact = (120 ∷ []) ∷ []; wildcard = (99 ∷ []) ∷ [] }
unfolding packet_inspector.BlockList.same packet_inspector.BlockList.contains
    packet_inspector.BlockList.parse_line packet_inspector.BlockList.add_entry
    packet_inspector.BlockList.add_lines packet_inspector.BlockList.load
    packet_inspector.BlockList.has_blocked_parent packet_inspector.BlockList.is_hostname_blocked
reads_the_entries = refl

abbrev pub small_list : BlockList
small_list = record { exact = (120 ∷ []) ∷ []; wildcard = (99 ∷ []) ∷ [] }

is_hostname_blocked-Blocked_example :
    (is_hostname_blocked small_list host ≡ true) ↔ Blocked small_list host
is_hostname_blocked-Blocked_example = is_hostname_blocked-Blocked small_list host

load-IsAsked_example : (is_hostname_blocked (load entries) host ≡ true) ↔ IsAsked entries host
load-IsAsked_example = load-IsAsked entries host

abbrev pub arrival : ℕ → Bytes → Arrival
arrival id payload = record {
  header = some id;
  payload = some (segment 24 payload);
  len = length (segment 24 payload);
  now = 5;
}

abbrev pub worker : Worker ℕ
worker = record {
  passthrough = false;
  blocklist = small_list;
  queue = record { answered = []; received = 0; undecided = 0; verdicted = 0 };
  tls = fresh;
}

abbrev pub arrivals : List (List Arrival × ℕ)
arrivals =
    (arrival 1 (take 30 sample_stream) ∷ [], 6)
    ∷ ([], 7)
    ∷ (arrival 2 (drop 30 sample_stream) ∷ [], 8)
    ∷ []

blocks_the_hello :
    (loop (λ calls. true) in_order arrivals worker).queue.answered ≡ (1, block) ∷ (2, block) ∷ []
unfolding packet_inspector.Memory.read packet_inspector.Memory.span packet_inspector.Memory.rd16
    packet_inspector.Tls.after_collect packet_inspector.Tls.extract_hostname
    packet_inspector.Tls.Records.rd24 packet_inspector.Tls.Records.is_other_record
    packet_inspector.Tls.Records.learn_length packet_inspector.Tls.Records.join_step
    packet_inspector.Tls.Records.join_records packet_inspector.Tls.Records.join_all
    packet_inspector.Tls.Records.fast_path packet_inspector.Tls.Records.has_other_major
    packet_inspector.Tls.Records.collect_payload packet_inspector.Tls.Records.check_major
    packet_inspector.Tls.Records.collect_handshake packet_inspector.Tls.Hello.walk
    packet_inspector.Tls.Hello.name_step packet_inspector.Tls.Hello.walk_names
    packet_inspector.Tls.Hello.server_name packet_inspector.Tls.Hello.extension_step
    packet_inspector.Tls.Hello.walk_extensions packet_inspector.Tls.Hello.parse_extensions
    packet_inspector.Tls.Hello.parse_compression packet_inspector.Tls.Hello.parse_cipher_suites
    packet_inspector.Tls.Hello.parse_body packet_inspector.Tls.Hello.parse_client_hello
    packet_inspector.Packet.move_packet packet_inspector.Packet.materialize
    packet_inspector.Packet.packet_bytes packet_inspector.Packet.flow_view
    packet_inspector.Packet.flow_key packet_inspector.Packet.Dissect.parse_tcp
    packet_inspector.Packet.Dissect.parse_udp packet_inspector.Packet.Dissect.parse_l4
    packet_inspector.Packet.Dissect.parse_ipv4_body packet_inspector.Packet.Dissect.parse_ipv4
    packet_inspector.Packet.Dissect.skip_header packet_inspector.Packet.Dissect.walk_headers
    packet_inspector.Packet.Dissect.parse_ipv6 packet_inspector.Packet.Dissect.hash_bytes
    packet_inspector.Packet.Dissect.endpoint_hash packet_inspector.Packet.Dissect.route_key
    packet_inspector.Packet.Dissect.parse_flow packet_inspector.Extractor.Table.find
    packet_inspector.Extractor.Table.erase packet_inspector.Extractor.Table.update
    packet_inspector.Extractor.Table.insert packet_inspector.Extractor.Table.keys
    packet_inspector.Extractor.Ring.publish packet_inspector.Extractor.Ring.park
    packet_inspector.Extractor.Ring.park_all packet_inspector.Extractor.Ring.forget_blocked
    packet_inspector.Extractor.Ring.remember_blocked packet_inspector.Extractor.Ring.evict
    packet_inspector.Extractor.Ring.evict_oldest_blocked
    packet_inspector.Extractor.Callbacks.hostname_in
    packet_inspector.Extractor.Callbacks.defer_close packet_inspector.Extractor.Callbacks.settle
    packet_inspector.Extractor.Callbacks.resolve_conn packet_inspector.Extractor.Callbacks.resolve
    packet_inspector.Extractor.Callbacks.on_connection_start
    packet_inspector.Extractor.Callbacks.act_on packet_inspector.Extractor.Callbacks.on_client_data
    packet_inspector.Extractor.Callbacks.on_message_ready
    packet_inspector.Extractor.Callbacks.on_connection_end
    packet_inspector.Extractor.Callbacks.dispatch packet_inspector.Extractor.Callbacks.dispatch_all
    packet_inspector.Extractor.Feed.opens_tls_handshake
    packet_inspector.Extractor.Feed.is_client_syn packet_inspector.Extractor.Feed.changes_state
    packet_inspector.Extractor.Feed.tcp_flow packet_inspector.Extractor.Feed.raw_bytes
    packet_inspector.Extractor.Feed.release_last packet_inspector.Extractor.Feed.is_expired
    packet_inspector.Extractor.Feed.expired packet_inspector.Extractor.Feed.count_blocked
    packet_inspector.Extractor.Feed.waiting_keys packet_inspector.Extractor.Feed.call
    packet_inspector.Extractor.Feed.close_all packet_inspector.Extractor.Feed.drain_closes
    packet_inspector.Extractor.Feed.reclaim packet_inspector.Extractor.Feed.reclaim_all
    packet_inspector.Extractor.Feed.sweep packet_inspector.Extractor.Feed.tick
    packet_inspector.Extractor.Feed.resolve_all packet_inspector.Extractor.Feed.flush
    packet_inspector.Extractor.Feed.make_room packet_inspector.Extractor.Feed.ensure_room
    packet_inspector.Extractor.Feed.release_held packet_inspector.Extractor.Feed.reassemble_packet
    packet_inspector.Extractor.Feed.track packet_inspector.Extractor.Feed.start_flow
    packet_inspector.Extractor.Feed.admit packet_inspector.Extractor.Feed.feed_known
    packet_inspector.Extractor.Feed.feed_flow packet_inspector.Extractor.Feed.feed
    packet_inspector.BlockList.same packet_inspector.BlockList.contains
    packet_inspector.BlockList.parse_line packet_inspector.BlockList.add_entry
    packet_inspector.BlockList.add_lines packet_inspector.BlockList.load
    packet_inspector.BlockList.has_blocked_parent packet_inspector.BlockList.is_hostname_blocked
    packet_inspector.Worker.policy packet_inspector.Worker.view_of
    packet_inspector.Worker.arrived_packet packet_inspector.Worker.submit
    packet_inspector.Worker.submit_all packet_inspector.Worker.let_through
    packet_inspector.Worker.inspect packet_inspector.Worker.on_packet
    packet_inspector.Worker.answer_for packet_inspector.Worker.handle
    packet_inspector.Worker.handle_all packet_inspector.Worker.drain_decided
    packet_inspector.Worker.turn packet_inspector.Worker.finish packet_inspector.Worker.loop
blocks_the_hello = refl

loop-answers_all_example :
    (count_answers 1
        (loop (λ calls. true) in_order arrivals (record worker { tls = holding })).queue.answered
      ≡ count_turns 1 arrivals + 1)
    × ((loop (λ calls. true) in_order arrivals (record worker { tls = holding })).tls.conns ≡ [])
    × ((loop (λ calls. true) in_order arrivals (record worker { tls = holding })).tls.decided ≡ [])
    × ((loop (λ calls. true) in_order arrivals (record worker { tls = holding })).queue.undecided
        ≡ 0)
loop-answers_all_example =
    loop-answers_all (λ calls. true) in_order 1 arrivals (record worker { tls = holding })
      holding-IsTidy

loop-drops_due_example :
    AllDue
      (λ calls. true)
      in_order
      small_list
      (fed_in arrivals)
      (loop (λ calls. true) in_order arrivals (new_worker false small_list 0 8 2)).queue.answered
loop-drops_due_example = loop-drops_due (λ calls. true) in_order false small_list 0 8 2 arrivals
