-- ===== src/Tests/Conversations.antt =====
-- A hello in two packets, with a packet of another flow in between, and the flow that it is followed in.
use packet_inspector.Base.{
  ℕ, ◌≡◌, ◌≢◌, ◌↔◌, refl, ap, List, [], ◌∷◌, ◌++◌, Option, none, some, arith, Bytes, true, false,
  take, drop,
}
use packet_inspector.Packet.{Packet, Verdict, packet_view, release_bytes, block}
use packet_inspector.Packet.Dissect.{FlowView}
use packet_inspector.Extractor.State.{message_ready, Extractor, Conn, new_conn}
use packet_inspector.Extractor.Feed.{tcp_flow, feed, opens_tls_handshake, is_expired, tick}
use packet_inspector.Extractor.Table.{find}
use packet_inspector.Extractor.Followed.{observe, waits_on}
use packet_inspector.Extractor.Followed.Fed.{callbacks, feed-Shows}
use packet_inspector.Extractor.Followed.Turns.{Turn, spoken}
use packet_inspector.Extractor.Followed.Conversation.{
  Waits, opens, passes, IsFollowed, Waits-IsFollowed,
}
use packet_inspector.Tests.{sample_stream, host, sample_hello, two_records}
use packet_inspector.Extractor.Followed.Tracked.{Shows}
use packet_inspector.Extractor.Followed.Spoken.{client_bytes, IsOpen}
use packet_inspector.Extractor.Followed.Named.{IsDecided}
use packet_inspector.Extractor.Isolated.{feed-spares}
use packet_inspector.Extractor.Conserve.Tables.{IsTidy}
use packet_inspector.Worker.{policy}
use packet_inspector.Worker.Listed.{Waits-decides_listed}
use packet_inspector.BlockList.{load}
use packet_inspector.BlockList.File.{IsAsked}
use packet_inspector.Tests.Hostnames.{sample_hello-IsHello}
use packet_inspector.Tests.Workers.{entries}
use packet_inspector.Tests.Flows.{strict, in_order, fresh, first_half, second_half}

-- The client's flow, with a segment's bytes.
abbrev client : Bytes → FlowView
client payload = record {
  ip_version = 4;
  ip_proto = 6;
  src_ip = 10 ∷ 0 ∷ 0 ∷ 1 ∷ 0 ∷ 0 ∷ 0 ∷ 0 ∷ 0 ∷ 0 ∷ 0 ∷ 0 ∷ 0 ∷ 0 ∷ 0 ∷ 0 ∷ [];
  dst_ip = 10 ∷ 0 ∷ 0 ∷ 2 ∷ 0 ∷ 0 ∷ 0 ∷ 0 ∷ 0 ∷ 0 ∷ 0 ∷ 0 ∷ 0 ∷ 0 ∷ 0 ∷ 0 ∷ [];
  src_port = 40000;
  dst_port = 443;
  payload = payload;
  tcp_flags = 24;
  key = 4072498872;
}

first_half-view : tcp_flow first_half ≡ some (client (take 30 sample_stream))
unfolding packet_inspector.Packet.flow_view packet_inspector.Packet.packet_bytes
    packet_inspector.Packet.Dissect.parse_flow packet_inspector.Packet.Dissect.parse_ipv4
    packet_inspector.Packet.Dissect.parse_ipv4_body packet_inspector.Packet.Dissect.parse_l4
    packet_inspector.Packet.Dissect.parse_tcp packet_inspector.Packet.Dissect.route_key
    packet_inspector.Packet.Dissect.endpoint_hash packet_inspector.Packet.Dissect.hash_bytes
    packet_inspector.Extractor.Feed.tcp_flow packet_inspector.Memory.read
    packet_inspector.Memory.span packet_inspector.Memory.rd16
first_half-view = refl

second_half-view : tcp_flow second_half ≡ some (client (drop 30 sample_stream))
unfolding packet_inspector.Packet.flow_view packet_inspector.Packet.packet_bytes
    packet_inspector.Packet.Dissect.parse_flow packet_inspector.Packet.Dissect.parse_ipv4
    packet_inspector.Packet.Dissect.parse_ipv4_body packet_inspector.Packet.Dissect.parse_l4
    packet_inspector.Packet.Dissect.parse_tcp packet_inspector.Packet.Dissect.route_key
    packet_inspector.Packet.Dissect.endpoint_hash packet_inspector.Packet.Dissect.hash_bytes
    packet_inspector.Extractor.Feed.tcp_flow packet_inspector.Memory.read
    packet_inspector.Memory.span packet_inspector.Memory.rd16
second_half-view = refl

first-waits :
    (policy : Option Bytes → Verdict)
    → observe policy
        (client (take 30 sample_stream))
        first_half
        (callbacks in_order policy 5 first_half fresh)
        []
        []
      ≡ waits_on (take 30 sample_stream) (release_bytes first_half ∷ []) []
unfolding packet_inspector.Extractor.Followed.observe packet_inspector.Extractor.Followed.hear
    packet_inspector.Extractor.Followed.judge packet_inspector.Extractor.Callbacks.hostname_in
    packet_inspector.Extractor.Feed.raw_bytes packet_inspector.Packet.packet_bytes
    packet_inspector.Extractor.Feed.changes_state packet_inspector.Extractor.Feed.release_last
    packet_inspector.Extractor.Feed.tick packet_inspector.Memory.read packet_inspector.Memory.span
    packet_inspector.Memory.rd16 packet_inspector.Tls.after_collect
    packet_inspector.Tls.extract_hostname packet_inspector.Tls.Records.rd24
    packet_inspector.Tls.Records.is_other_record packet_inspector.Tls.Records.learn_length
    packet_inspector.Tls.Records.join_step packet_inspector.Tls.Records.join_records
    packet_inspector.Tls.Records.join_all packet_inspector.Tls.Records.fast_path
    packet_inspector.Tls.Records.has_other_major packet_inspector.Tls.Records.collect_payload
    packet_inspector.Tls.Records.check_major packet_inspector.Tls.Records.collect_handshake
    packet_inspector.Tls.Hello.walk packet_inspector.Tls.Hello.name_step
    packet_inspector.Tls.Hello.walk_names packet_inspector.Tls.Hello.server_name
    packet_inspector.Tls.Hello.extension_step packet_inspector.Tls.Hello.walk_extensions
    packet_inspector.Tls.Hello.parse_extensions packet_inspector.Tls.Hello.parse_compression
    packet_inspector.Tls.Hello.parse_cipher_suites packet_inspector.Tls.Hello.parse_body
    packet_inspector.Tls.Hello.parse_client_hello
first-waits policy = refl

-- A packet without bytes.
abbrev other : Packet
other = packet_view none 0 3

other-view : tcp_flow other ≡ none
unfolding packet_inspector.Extractor.Feed.tcp_flow
other-view = refl

abbrev after_first : (Option Bytes → Verdict) → Extractor ℕ
after_first policy = feed in_order policy 5 first_half fresh

abbrev after_other : (Option Bytes → Verdict) → Extractor ℕ
after_other policy = feed in_order policy 6 other (after_first policy)

callbacks-second :
    (policy : Option Bytes → Verdict) (e : Extractor ℕ)
    → callbacks in_order policy 7 second_half e ≡ message_ready 0 7 (drop 30 sample_stream) ∷ []
unfolding packet_inspector.Extractor.Feed.raw_bytes packet_inspector.Packet.packet_bytes
    packet_inspector.Memory.span
callbacks-second policy e = refl

opens_tls : opens_tls_handshake (take 30 sample_stream) ≡ true
unfolding packet_inspector.Extractor.Feed.opens_tls_handshake
opens_tls = refl

new_flow : find 4072498872 fresh.conns ≡ none
unfolding find
new_flow = refl

is_followed :
    (policy : Option Bytes → Verdict)
    → Waits in_order policy 4072498872
        (record {
          pkt = first_half;
          view = client (take 30 sample_stream);
          events = callbacks in_order policy 5 first_half fresh;
        }
          ∷ [])
        (take 30 sample_stream)
        (release_bytes first_half ∷ [])
        5
        (after_other policy)
unfolding packet_inspector.Extractor.Feed.is_client_syn
is_followed policy =
    passes 6 other
      (opens fresh 5 first_half (client (take 30 sample_stream)) tt refl first_half-view refl
        new_flow (rw opens_tls refl) (omega arith) (first-waits policy))
      (omega arith) (λ f h. let none_is = other-view in cc)

abbrev first_turns : (Option Bytes → Verdict) → List Turn
first_turns policy =
    record {
      pkt = first_half;
      view = client (take 30 sample_stream);
      events = callbacks in_order policy 5 first_half fresh;
    }
    ∷ []

Waits-IsFollowed_example :
    IsFollowed in_order strict 4072498872
      (first_turns strict)
      (take 30 sample_stream)
      (release_bytes first_half ∷ [])
      5
      (after_other strict)
Waits-IsFollowed_example = Waits-IsFollowed in_order strict (is_followed strict)

abbrev listed : Option Bytes → Verdict
listed = policy (load entries)

says_hello :
    spoken (first_turns listed)
      ++ client_bytes (callbacks in_order listed 7 second_half (after_other listed))
    ≡ sample_stream ++ []
unfolding packet_inspector.Extractor.Feed.raw_bytes packet_inspector.Packet.packet_bytes
    packet_inspector.Memory.span
says_hello = refl

is_open : IsOpen (callbacks in_order listed 7 second_half (after_other listed))
is_open = rw (callbacks-second listed (after_other listed)) tt

Waits-decides_listed_example :
    (v : Verdict) × ((v ≡ block) ↔ IsAsked entries host)
    × IsDecided v 4072498872
        (1 ∷ 2 ∷ [])
        (tick in_order listed 7 (after_other listed))
        (feed in_order listed 7 second_half (after_other listed))
Waits-decides_listed_example =
    Waits-decides_listed in_order entries host sample_hello two_records [] [] 7 second_half
      (client (drop 30 sample_stream)) (is_followed listed) (omega arith) second_half-view refl refl
      (omega arith) is_open says_hello (omega arith) sample_hello-IsHello
      ((omega arith, omega arith), ((omega arith, omega arith), tt)) refl refl

-- The first half has come in.
abbrev half_conn : Conn
half_conn = record new_conn {
  stream = take 30 sample_stream;
  held = release_bytes first_half ∷ [];
  last = 5;
}

abbrev half_way : Extractor ℕ
half_way = record fresh { conns = (4072498872, half_conn) ∷ (9, record new_conn { last = 5 }) ∷ [] }

half_way-IsTidy : IsTidy half_way.conns
unfolding find
half_way-IsTidy = ((λ b. cc), refl, ((λ b. cc), refl, tt))

half_way-client : find 4072498872 half_way.conns ≡ some half_conn
unfolding find
half_way-client = refl

half_way-other : find 9 half_way.conns ≡ some (record new_conn { last = 5 })
unfolding find
half_way-other = refl

half_conn-young : is_expired 6 half_conn ≡ false
unfolding is_expired
half_conn-young = refl

other_conn-young : is_expired 6 (record new_conn { last = 5 }) ≡ false
unfolding is_expired
other_conn-young = refl

feed-Shows_example :
    Shows in_order strict
      (tick in_order strict 6 half_way).decided
      4072498872
      6
      (observe strict
        (client (drop 30 sample_stream))
        second_half
        (callbacks in_order strict 6 second_half half_way)
        (take 30 sample_stream)
        (release_bytes first_half ∷ []))
      (feed in_order strict 6 second_half half_way)
feed-Shows_example =
    feed-Shows in_order strict 6 second_half (client (drop 30 sample_stream)) half_conn half_way
      half_way-IsTidy refl second_half-view half_way-client refl half_conn-young

not_the_other : (f : FlowView) → tcp_flow second_half ≡ some f → f.key ≢ 9
not_the_other f h same =
    let is : client (drop 30 sample_stream) ≡ f = ground (arith, second_half-view, h) in
    let k : 4072498872 ≡ f.key = ap (λ v. v.key) is in absurd (omega (arith, k, same))

feed-spares_example :
    (find 9 (feed in_order strict 6 second_half half_way).conns
      ≡ some (record new_conn { last = 5 }))
    × ((feed in_order strict 6 second_half half_way).feeding ≡ false)
feed-spares_example =
    feed-spares in_order strict 6 9 second_half (record new_conn { last = 5 }) half_way
      half_way-IsTidy refl half_way-other refl other_conn-young not_the_other
