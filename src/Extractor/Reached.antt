-- ===== src/Extractor/Reached.antt =====
-- The states that an extractor gets into: what the worker calls of include/hostname_extractor.hpp, in
-- any order and number.
use packet_inspector.Base.{
  ℕ, ◌+◌, ◌≤◌, ◌<◌, ◌≡◌, refl, ◌∙◌, Option, List, [], ◌∷◌, ◌++◌, arith, Bytes, length,
  length-replicate,
}
use packet_inspector.Packet.{Packet, Verdict}
use packet_inspector.Extractor.Table.{find}
use packet_inspector.Extractor.State.{Reassembler, Extractor, new_extractor}
use packet_inspector.Extractor.Feed.{
  raw_bytes, count_blocked, waiting_keys, feed, tick, flush, resolve_all,
}
use packet_inspector.Extractor.Ring.{publish}
use packet_inspector.Extractor.Conserve.Tables.{IsTidy}
use packet_inspector.Extractor.Conserve.Feed.{feed-Fed}
use packet_inspector.Extractor.Conserve.Sweep.{tick-Kept, drain_closes-Kept}
use packet_inspector.Extractor.Conserve.Flush.{flush-decides_all, resolve_all-Kept}
use packet_inspector.Extractor.Stable.{core, All-AnyKey, any_events}
use packet_inspector.Extractor.Stable.Sweep.{tick-keeps, flush-keeps}
use packet_inspector.Extractor.Stable.Feed.{feed-keeps}
use packet_inspector.Extractor.Blocked.{IsRemembered}
use packet_inspector.Extractor.Blocked.Guarded.{IsRemembered-IsStable, IsRemembered-IsGuarded}
use packet_inspector.Extractor.Blocked.Count.{blocked_at, IsRemembered-bounds}

module _ {ℓ} {R : Type ℓ} (r : Reassembler R) (policy : Option Bytes → Verdict) where
  -- One call, with the packet that it is given, or the worker taking the decided packets out.
  pub data Step : List Packet → Extractor R → Extractor R → Type ℓ where
    feeds : (e : Extractor R) (now : ℕ) (pkt : Packet) → Step (pkt ∷ []) e (feed r policy now pkt e)
    ticks : (e : Extractor R) (now : ℕ) → Step [] e (tick r policy now e)
    flushes : (e : Extractor R) → Step [] e (flush r policy e)
    hands_over : (e : Extractor R) → Step [] e (record e { decided = [] })

  pub data Reached (e : Extractor R) : List Packet → Extractor R → Type ℓ where
    here : Reached e [] e
    next :
        {pkts more_pkts : List Packet} {f g : Extractor R}
        → Reached e pkts f
        → Step more_pkts f g
        → Reached e (pkts ++ more_pkts) g

  -- What every reached state has.
  pub record IsSound (size room : ℕ) (e : Extractor R) : Type 0 where
    pub tidy : IsTidy e.conns
    pub remembered : IsRemembered size (core e)
    pub fits : length e.conns ≤ e.max_flows
    pub same_room : e.max_flows ≡ room

  flush-same_room : (e : Extractor R) → IsTidy e.conns → (flush r policy e).max_flows ≡ e.max_flows
  unfolding flush publish
  flush-same_room e t =
      let k = resolve_all-Kept r policy 0 (waiting_keys e.conns) e t in
      let resolved = resolve_all r policy (waiting_keys e.conns) e in
      (drain_closes-Kept r policy 0 (record resolved { conns = [] }) tt).same_cap ∙ k.same_cap

  pub Step-IsSound :
      {size room : ℕ} {pkts : List Packet} {e f : Extractor R}
      → Step pkts e f
      → IsSound size room e
      → IsSound size room f
  Step-IsSound {size} (feeds e now pkt) s =
      let k = feed-Fed r policy 0 now pkt e s.tidy in
      record {
        tidy = k.tidy;
        remembered =
            feed-keeps r policy (IsRemembered-IsGuarded size policy) now pkt e tt s.tidy
              (λ f is. (tt, tt, λ t. any_events f.key (r.reassemble (raw_bytes pkt) t).0))
              s.remembered;
        fits = k.bounded s.fits;
        same_room = k.same_cap ∙ s.same_room;
      }
  Step-IsSound {size} (ticks e now) s =
      let k = tick-Kept r policy 0 now e s.tidy in
      record {
        tidy = k.tidy;
        remembered =
            tick-keeps r policy (IsRemembered-IsStable size policy) (λ t bytes p feeding. tt) now e
              tt s.tidy s.remembered;
        fits = omega (arith, k.no_more, k.same_cap, s.fits);
        same_room = k.same_cap ∙ s.same_room;
      }
  Step-IsSound {size} (flushes e) s =
      let gone = (flush-decides_all r policy 0 e s.tidy).1 in
      record {
        tidy = rw gone tt;
        remembered =
            flush-keeps r policy (IsRemembered-IsStable size policy) (λ t bytes p feeding. tt) e tt
              (All-AnyKey (waiting_keys e.conns)) s.tidy s.remembered;
        fits = rw gone (omega arith);
        same_room = flush-same_room e s.tidy ∙ s.same_room;
      }
  Step-IsSound (hands_over e) s = record {
    tidy = s.tidy;
    remembered = record {
      same_max = s.remembered.same_max;
      ring_length = s.remembered.ring_length;
      next_inside = s.remembered.next_inside;
      in_ring = s.remembered.in_ring;
    };
    fits = s.fits;
    same_room = s.same_room;
  }

  pub Reached-IsSound :
      {size room : ℕ} {e : Extractor R} {pkts : List Packet} {f : Extractor R}
      → IsSound size room e
      → Reached e pkts f
      → IsSound size room f
  Reached-IsSound s here = s
  Reached-IsSound s (next way st) = Step-IsSound st (Reached-IsSound s way)

  new_extractor-caps :
      (reassembly : R) (max_flows max_blocked : ℕ)
      → (0 < (new_extractor reassembly max_flows max_blocked).max_blocked)
        × ((new_extractor reassembly max_flows max_blocked).max_blocked
            ≤ (new_extractor reassembly max_flows max_blocked).max_flows)
  unfolding new_extractor
  new_extractor-caps reassembly max_flows max_blocked = ground arith

  pub new_extractor-IsSound :
      (reassembly : R) (max_flows max_blocked : ℕ)
      → IsSound
          (new_extractor reassembly max_flows max_blocked).max_blocked
          (new_extractor reassembly max_flows max_blocked).max_flows
          (new_extractor reassembly max_flows max_blocked)
  unfolding new_extractor find
  new_extractor-IsSound reassembly max_flows max_blocked =
      let caps = new_extractor-caps reassembly max_flows max_blocked in
      record {
        tidy = tt;
        remembered = record {
          same_max = refl;
          ring_length =
              length-replicate (new_extractor reassembly max_flows max_blocked).max_blocked 0;
          next_inside = caps.0;
          in_ring = λ k c h is nz. cc;
        };
        fits = omega arith;
        same_room = refl;
      }

  -- In every state that a new extractor gets into by feeds, ticks, flushes and handing its verdicts
  -- over, in any order: the tracked flows are at most its flow limit, the blocked ones at most its
  -- blocked limit and one more if the flow with the key 0 is blocked, and the blocked limit lies
  -- between 1 and the flow limit.
  pub Reached-bounded :
      (reassembly : R) (max_flows max_blocked : ℕ) (pkts : List Packet) (e : Extractor R)
      → Reached (new_extractor reassembly max_flows max_blocked) pkts e
      → (length e.conns ≤ (new_extractor reassembly max_flows max_blocked).max_flows)
        × (count_blocked e.conns
            ≤ (new_extractor reassembly max_flows max_blocked).max_blocked + blocked_at 0 e.conns)
        × (0 < (new_extractor reassembly max_flows max_blocked).max_blocked)
        × ((new_extractor reassembly max_flows max_blocked).max_blocked
            ≤ (new_extractor reassembly max_flows max_blocked).max_flows)
  Reached-bounded reassembly max_flows max_blocked pkts e way =
      let s = Reached-IsSound (new_extractor-IsSound reassembly max_flows max_blocked) way in
      let caps = new_extractor-caps reassembly max_flows max_blocked in
      (
        omega (arith, s.fits, s.same_room),
        IsRemembered-bounds (new_extractor reassembly max_flows max_blocked).max_blocked e s.tidy
            s.remembered,
        caps.0,
        caps.1,
      )
