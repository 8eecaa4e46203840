-- ===== src/Extractor/Conserve/Sweep.antt =====
-- The packets under the reassembler's callbacks, `drain_closes`, `sweep` and `tick`.
use packet_inspector.Base.{
  ℕ, ◌-◌, inl, inr, Option, none, some, List, [], ◌∷◌, arith, ltb, leb, Bool-cases, Option-cases,
  Bytes, length,
}
use packet_inspector.Packet.{Verdict}
use packet_inspector.Extractor.Table.{find}
use packet_inspector.Extractor.State.{Event, Reassembler, Extractor, is_blocking, sweep_interval}
use packet_inspector.Extractor.Feed.{
  expired, count_blocked, call, close_all, drain_closes, reclaim, reclaim_all, sweep, tick,
  make_room,
}
use packet_inspector.Extractor.Conserve.Tables.{IsTidy, find-IsTidy}
use packet_inspector.Extractor.Conserve.Steps.{
  Kept, Kept-refl, Kept-then, publish-Kept, erase-Kept, evict_oldest_blocked-Kept,
}
use packet_inspector.Extractor.Conserve.Callbacks.{resolve-Kept, dispatch_all-Kept}

module _ {ℓ} {R : Type ℓ} (r : Reassembler R) (policy : Option Bytes → Verdict) (i : ℕ) where
  pub call-Kept :
      (result : List Event × R) (e : Extractor R)
      → IsTidy e.conns
      → Kept i 0 e (call r policy result e)
  unfolding call
  call-Kept (events, next) e t =
      let k = dispatch_all-Kept policy i events (record e { reassembly = next }) t in
      record {
        tidy = k.tidy;
        times_are = k.times_are;
        no_more = k.no_more;
        same_cap = k.same_cap;
        still_new = k.still_new;
      }

  pub close_all-Kept :
      (tokens : List ℕ) (e : Extractor R)
      → IsTidy e.conns
      → Kept i 0 e (close_all r policy tokens e)
  unfolding close_all
  close_all-Kept [] e t = Kept-refl i e t
  close_all-Kept (token ∷ tokens) e t =
      let k = call-Kept (r.close_connection token e.reassembly) e t in
      Kept-then i e _ _ k (close_all-Kept tokens _ k.tidy)

  pub drain_closes-Kept : (e : Extractor R) → IsTidy e.conns → Kept i 0 e (drain_closes r policy e)
  unfolding drain_closes
  drain_closes-Kept e t =
      let k = close_all-Kept e.to_close e t in
      record {
        tidy = k.tidy;
        times_are = k.times_are;
        no_more = k.no_more;
        same_cap = k.same_cap;
        still_new = k.still_new;
      }

  pub reclaim-Kept :
      (key : ℕ) (e : Extractor R) → IsTidy e.conns → Kept i 0 e (reclaim r policy key e)
  unfolding reclaim
  reclaim-Kept key e t = elim (Option-cases (find key e.conns)) [
    | inl missing ↦ rw (missing, reclaim) (Kept-refl i e t)
    | inr (c, there) ↦ elim (Bool-cases (is_blocking (some c))) [
      | inl blocked ↦
          rw (there, reclaim, blocked)
            (erase-Kept i key c e t there (find-IsTidy key e.conns there t (ground arith)))
      | inr waits ↦ rw (there, reclaim, waits) (resolve-Kept policy i key none e t)
    ]
  ]

  pub reclaim_all-Kept :
      (ks : List ℕ) (e : Extractor R) → IsTidy e.conns → Kept i 0 e (reclaim_all r policy ks e)
  unfolding reclaim_all
  reclaim_all-Kept [] e t = Kept-refl i e t
  reclaim_all-Kept (key ∷ ks) e t =
      let k = reclaim-Kept key e t in Kept-then i e _ _ k (reclaim_all-Kept ks _ k.tidy)

  pub sweep-Kept : (now : ℕ) (e : Extractor R) → IsTidy e.conns → Kept i 0 e (sweep r policy now e)
  unfolding sweep
  sweep-Kept now e t =
      let counted = record e { blocked = count_blocked e.conns } in
      let k = reclaim_all-Kept (expired now e.conns) counted t in
      let reclaimed = reclaim_all r policy (expired now e.conns) counted in
      let p = call-Kept (r.purge_closed reclaimed.reassembly) reclaimed k.tidy in
      let d = drain_closes-Kept _ p.tidy in
      let all =
        publish-Kept i counted _ (Kept-then i counted _ _ k (Kept-then i reclaimed _ _ p d)) in
      record {
        tidy = all.tidy;
        times_are = all.times_are;
        no_more = all.no_more;
        same_cap = all.same_cap;
        still_new = all.still_new;
      }

  pub tick-Kept : (now : ℕ) (e : Extractor R) → IsTidy e.conns → Kept i 0 e (tick r policy now e)
  unfolding tick
  tick-Kept now e t = elim (Bool-cases (ltb (now - e.last_sweep) sweep_interval)) [
    | inl early ↦ rw early (Kept-refl i e t)
    | inr due ↦
        let k = sweep-Kept now (record e { last_sweep = now }) t in
        rw due (record {
          tidy = k.tidy;
          times_are = k.times_are;
          no_more = k.no_more;
          same_cap = k.same_cap;
          still_new = k.still_new;
        })
  ]

  pub make_room-Kept :
      (now : ℕ) (e : Extractor R) → IsTidy e.conns → Kept i 0 e (make_room r policy now e)
  unfolding make_room
  make_room-Kept now e t =
      let swept = tick r policy now e in
      let k = tick-Kept now e t in
      elim (Bool-cases (leb swept.max_flows (length swept.conns))) [
        | inl full ↦ rw full (Kept-then i e _ _ k (evict_oldest_blocked-Kept i swept k.tidy))
        | inr room ↦ rw room k
      ]
