-- ===== src/Extractor/Stable/Sweep.antt =====
-- `drain_closes`, `sweep`, `tick` and `flush` keep a stable predicate.
use packet_inspector.Base.{
  ℕ, ◌-◌, ◌≡◌, inl, inr, true, Option, none, some, List, [], ◌∷◌, arith, ltb, leb, Bool-cases, All,
  Option-cases, Bytes, length,
}
use packet_inspector.Packet.{Verdict}
use packet_inspector.Extractor.Table.{find}
use packet_inspector.Extractor.State.{
  blocking, Event, connection_start, message_ready, connection_end, Reassembler, Extractor,
  is_blocking, sweep_interval,
}
use packet_inspector.Extractor.Ring.{publish}
use packet_inspector.Extractor.Feed.{
  expired, count_blocked, call, close_all, drain_closes, reclaim, reclaim_all, sweep, tick,
  make_room, ensure_room, resolve_all, waiting_keys, flush,
}
use packet_inspector.Extractor.Conserve.Tables.{IsTidy}
use packet_inspector.Extractor.Conserve.Sweep.{call-Kept, reclaim-Kept, reclaim_all-Kept, tick-Kept}
use packet_inspector.Extractor.Conserve.Callbacks.{resolve-Kept}
use packet_inspector.Extractor.Stable.{Core, core, IsStable, Scope, Hearable}
use packet_inspector.Extractor.Stable.Callbacks.{resolve-keeps, dispatch_all-keeps}

module _ {ℓ ι σ κ} {R : Type ℓ} (r : Reassembler R) (policy : Option Bytes → Verdict)
    {Heard : ℕ → Bytes → Type ι} {Sent : ℕ → ℕ → Type σ} {scope : Scope} {P : Core → Type κ}
    (stable : IsStable R policy Heard Sent scope P) where
  pub call-keeps :
      (result : List Event × R) (e : Extractor R)
      → IsTidy e.conns
      → All (Hearable Heard P) result.0
      → P (core e)
      → P (core (call r policy result e))
  unfolding call
  call-keeps (events, next) e t hears p =
      dispatch_all-keeps policy stable events (record e { reassembly = next }) t hears p

module _ {ℓ ι σ κ} {R : Type ℓ} (r : Reassembler R) (policy : Option Bytes → Verdict)
    {Heard : ℕ → Bytes → Type ι} {Sent : ℕ → ℕ → Type σ} {scope : Scope} {P : Core → Type κ}
    (stable : IsStable R policy Heard Sent scope P)
    (deaf : (s : Core) (bytes : Bytes) → P s → s.feeding ≡ true → Heard s.current_key bytes) where
  All-deaf : (xs : List Event) → All (Hearable Heard P) xs
  All-deaf [] = tt
  All-deaf (connection_start flow_key ∷ xs) = (tt, All-deaf xs)
  All-deaf (message_ready side flow_key bytes ∷ xs) =
      ((λ s p feeding client. deaf s bytes p feeding), All-deaf xs)
  All-deaf (connection_end ∷ xs) = (tt, All-deaf xs)

  close_all-keeps :
      (tokens : List ℕ) (e : Extractor R)
      → IsTidy e.conns
      → P (core e)
      → P (core (close_all r policy tokens e))
  unfolding close_all
  close_all-keeps [] e t p = p
  close_all-keeps (token ∷ tokens) e t p =
      let result = r.close_connection token e.reassembly in
      close_all-keeps tokens _ (call-Kept r policy 0 result e t).tidy
        (call-keeps r policy stable result e t (All-deaf result.0) p)

  pub drain_closes-keeps :
      (e : Extractor R) → IsTidy e.conns → P (core e) → P (core (drain_closes r policy e))
  unfolding drain_closes
  drain_closes-keeps e t p = close_all-keeps e.to_close e t p

  reclaim-keeps :
      (key : ℕ) (e : Extractor R)
      → scope.may key
      → IsTidy e.conns
      → P (core e)
      → P (core (reclaim r policy key e))
  unfolding reclaim
  reclaim-keeps key e may t p = elim (Option-cases (find key e.conns)) [
    | inl missing ↦ rw (missing, reclaim) p
    | inr (c, there) ↦ elim (Bool-cases (is_blocking (some c))) [
      | inl blocked ↦
          let is : c.state ≡ blocking = ground arith in
          rw (there, reclaim, blocked) (stable.forget key c e t there is p)
      | inr waits ↦ rw (there, reclaim, waits) (resolve-keeps policy stable key e may t p)
    ]
  ]

  reclaim_all-keeps :
      (ks : List ℕ) (e : Extractor R)
      → All scope.may ks
      → IsTidy e.conns
      → P (core e)
      → P (core (reclaim_all r policy ks e))
  unfolding reclaim_all
  reclaim_all-keeps [] e may t p = p
  reclaim_all-keeps (key ∷ ks) e may t p =
      reclaim_all-keeps ks _ may.1 (reclaim-Kept r policy 0 key e t).tidy
        (reclaim-keeps key e may.0 t p)

  sweep-keeps :
      (now : ℕ) (e : Extractor R)
      → scope.timely now
      → IsTidy e.conns
      → P (core e)
      → P (core (sweep r policy now e))
  unfolding sweep publish
  sweep-keeps now e due t p =
      let counted = record e { blocked = count_blocked e.conns } in
      let k = reclaim_all-Kept r policy 0 (expired now e.conns) counted t in
      let reclaimed = reclaim_all r policy (expired now e.conns) counted in
      let purge = r.purge_closed reclaimed.reassembly in
      drain_closes-keeps _ (call-Kept r policy 0 purge reclaimed k.tidy).tidy (
        call-keeps r policy stable purge reclaimed k.tidy (All-deaf purge.0)
          (reclaim_all-keeps (expired now e.conns) counted (stable.aged now (core e) due t p) t p))

  pub tick-keeps :
      (now : ℕ) (e : Extractor R)
      → scope.timely now
      → IsTidy e.conns
      → P (core e)
      → P (core (tick r policy now e))
  unfolding tick
  tick-keeps now e timely t p = elim (Bool-cases (ltb (now - e.last_sweep) sweep_interval)) [
    | inl early ↦ rw early p
    | inr due ↦ rw due (sweep-keeps now (record e { last_sweep = now }) timely t p)
  ]

  make_room-keeps :
      (now : ℕ) (e : Extractor R)
      → scope.timely now
      → IsTidy e.conns
      → P (core e)
      → P (core (make_room r policy now e))
  unfolding make_room
  make_room-keeps now e timely t p =
      let swept = tick r policy now e in
      elim (Bool-cases (leb swept.max_flows (length swept.conns))) [
        | inl full ↦ rw full (
            stable.make_space swept (tick-Kept r policy 0 now e t).tidy
              (tick-keeps now e timely t p))
        | inr room ↦ rw room (tick-keeps now e timely t p)
      ]

  pub ensure_room-keeps :
      (now : ℕ) (e : Extractor R)
      → scope.timely now
      → IsTidy e.conns
      → P (core e)
      → P (core (ensure_room r policy now e))
  unfolding ensure_room
  ensure_room-keeps now e timely t p = elim (Bool-cases (leb e.max_flows (length e.conns))) [
    | inl full ↦ rw full (make_room-keeps now e timely t p)
    | inr free ↦ rw free p
  ]

  resolve_all-keeps :
      (ks : List ℕ) (e : Extractor R)
      → All scope.may ks
      → IsTidy e.conns
      → P (core e)
      → P (core (resolve_all r policy ks e))
  unfolding resolve_all
  resolve_all-keeps [] e may t p = p
  resolve_all-keeps (key ∷ ks) e may t p =
      resolve_all-keeps ks _ may.1 (resolve-Kept policy 0 key none e t).tidy
        (resolve-keeps policy stable key e may.0 t p)

  pub flush-keeps :
      (e : Extractor R)
      → scope.ends
      → All scope.may (waiting_keys e.conns)
      → IsTidy e.conns
      → P (core e)
      → P (core (flush r policy e))
  unfolding flush publish
  flush-keeps e ends may t p =
      let resolved = resolve_all r policy (waiting_keys e.conns) e in
      drain_closes-keeps (record resolved { conns = [] }) tt
        (stable.clear resolved ends (resolve_all-keeps (waiting_keys e.conns) e may t p))
