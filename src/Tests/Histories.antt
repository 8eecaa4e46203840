-- ===== src/Tests/Histories.antt =====
-- An extractor's history: half of a hello comes in, then the other half, and the flow is blocked.
use packet_inspector.Base.{
  ℕ, ◌+◌, ◌-◌, ◌≤◌, ◌<◌, ◌≡◌, refl, [], ◌∷◌, ◌++◌, none, some, arith, length,
}
use packet_inspector.Packet.{Packet, block}
use packet_inspector.Extractor.Table.{find, erase}
use packet_inspector.Extractor.State.{wait_idle_timeout, Conn, new_conn, Extractor, new_extractor}
use packet_inspector.Extractor.Blocked.Fifo.{IsFifo, Reached-IsFifo}
use packet_inspector.Extractor.Callbacks.{resolve}
use packet_inspector.Extractor.Feed.{count_blocked, feed, tick}
use packet_inspector.Extractor.Conserve.Tables.{count_decided, times, IsTidy}
use packet_inspector.Extractor.Conserve.Feed.{tick-keeps_packets}
use packet_inspector.Extractor.Blocked.Count.{blocked_at}
use packet_inspector.Extractor.Reached.{Reached, here, next, feeds, Reached-bounded}
use packet_inspector.Extractor.Justified.{AllCondemned}
use packet_inspector.Extractor.Justified.Fed.{IsFed, IsHeard, Reached-justified}
use packet_inspector.Extractor.Resolved.{decided_with, left_of, resolve-decides}
use packet_inspector.Extractor.Fresh.{tick_fresh}
use packet_inspector.Tests.Flows.{
  in_order, strict, fresh, first_half, second_half, holding, holding-IsTidy,
}

abbrev start : Extractor ℕ
start = new_extractor 0 8 2

abbrev halfway : Extractor ℕ
halfway = feed in_order strict 5 first_half start

abbrev over : Extractor ℕ
over = feed in_order strict 6 second_half halfway

strict_lem : strict none ≡ packet_inspector.Packet.allow
strict_lem = refl

is_over : Reached in_order strict start (first_half ∷ second_half ∷ []) over
is_over = next (next here (feeds start 5 first_half)) (feeds halfway 6 second_half)

Reached-bounded_example :
    (length over.conns ≤ start.max_flows)
    × (count_blocked over.conns ≤ start.max_blocked + blocked_at 0 over.conns)
    × (0 < start.max_blocked)
    × (start.max_blocked ≤ start.max_flows)
Reached-bounded_example =
    Reached-bounded in_order strict 0 8 2 (first_half ∷ second_half ∷ []) over is_over

Reached-justified_example :
    AllCondemned strict
      (IsHeard in_order (first_half ∷ second_half ∷ []))
      (IsFed (first_half ∷ second_half ∷ []))
      over.decided
Reached-justified_example =
    Reached-justified in_order strict 0 8 2 (first_half ∷ second_half ∷ []) over strict_lem is_over

abbrev held_conn : Conn
held_conn = record new_conn { held = first_half ∷ []; last = 5 }

holding-has : find 9 holding.conns ≡ some held_conn
unfolding find
holding-has = refl

resolve-decides_example :
    ((resolve strict 9 (some (120 ∷ [])) holding).decided
      ≡ holding.decided ++ decided_with block (first_half ∷ []))
    × (find 9 (resolve strict 9 (some (120 ∷ [])) holding).conns ≡ left_of block held_conn)
resolve-decides_example =
    resolve-decides strict 9 (some (120 ∷ [])) held_conn holding holding-IsTidy holding-has refl

-- One flow is too old for the sweep, the other is not.
abbrev ages : Extractor ℕ
ages = record fresh {
  conns =
      (9, record new_conn { held = first_half ∷ []; last = 5 })
      ∷ (4, record new_conn { last = 9000000000 })
      ∷ [];
}

abbrev young : Conn
young = record new_conn { last = 9000000000 }

ages-IsTidy : IsTidy ages.conns
unfolding find
ages-IsTidy = ((λ b. cc), refl, ((λ b. cc), refl, tt))

ages-keeps_young : find 4 (tick in_order strict 10000000005 ages).conns ≡ some young
unfolding packet_inspector.Extractor.Feed.tick packet_inspector.Extractor.Feed.sweep
    packet_inspector.Extractor.Feed.reclaim_all packet_inspector.Extractor.Feed.reclaim
    packet_inspector.Extractor.Feed.expired packet_inspector.Extractor.Feed.is_expired
    packet_inspector.Extractor.Feed.count_blocked packet_inspector.Extractor.Feed.call
    packet_inspector.Extractor.Feed.drain_closes packet_inspector.Extractor.Feed.close_all
    packet_inspector.Extractor.Callbacks.dispatch_all packet_inspector.Extractor.Callbacks.resolve
    packet_inspector.Extractor.Callbacks.resolve_conn packet_inspector.Extractor.Callbacks.settle
    packet_inspector.Extractor.Callbacks.defer_close packet_inspector.Extractor.Ring.publish
    packet_inspector.Extractor.Ring.park packet_inspector.Extractor.Ring.park_all
    packet_inspector.Extractor.Table.find packet_inspector.Extractor.Table.erase
ages-keeps_young = refl

tick_fresh_example : 10000000005 - young.last < wait_idle_timeout
tick_fresh_example =
    tick_fresh in_order strict 10000000005 ages ages-IsTidy refl (omega arith) 4 young
      ages-keeps_young refl

-- The sweep lets the held packet of the old flow through.
ages-swept : count_decided 1 (tick in_order strict 10000000005 ages).decided ≡ 1
unfolding packet_inspector.Extractor.Feed.tick packet_inspector.Extractor.Feed.sweep
    packet_inspector.Extractor.Feed.reclaim_all packet_inspector.Extractor.Feed.reclaim
    packet_inspector.Extractor.Feed.expired packet_inspector.Extractor.Feed.is_expired
    packet_inspector.Extractor.Feed.count_blocked packet_inspector.Extractor.Feed.call
    packet_inspector.Extractor.Feed.drain_closes packet_inspector.Extractor.Feed.close_all
    packet_inspector.Extractor.Callbacks.dispatch_all packet_inspector.Extractor.Callbacks.resolve
    packet_inspector.Extractor.Callbacks.resolve_conn packet_inspector.Extractor.Callbacks.settle
    packet_inspector.Extractor.Callbacks.defer_close packet_inspector.Extractor.Ring.publish
    packet_inspector.Extractor.Ring.park packet_inspector.Extractor.Ring.park_all
    packet_inspector.Extractor.Table.find packet_inspector.Extractor.Table.erase
ages-swept = refl

tick-keeps_packets_example :
    (times 1 (tick in_order strict 10000000005 ages) ≡ 1)
    × (length (tick in_order strict 10000000005 ages).conns ≤ 2)
    × IsTidy (tick in_order strict 10000000005 ages).conns
tick-keeps_packets_example = tick-keeps_packets in_order strict 1 10000000005 ages ages-IsTidy

Reached-IsFifo_example : IsFifo 7 over
Reached-IsFifo_example =
    Reached-IsFifo in_order strict 0 8 2 (first_half ∷ second_half ∷ []) over 7 is_over
