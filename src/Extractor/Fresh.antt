-- ===== src/Extractor/Fresh.antt =====
-- How old the flows are that wait behind a `tick` of src/hostname_extractor.cpp.
use packet_inspector.Base.{
  ℕ, ◌-◌, ◌≤◌, ◌<◌, ◌≡◌, ◌≢◌, refl, inl, inr, false, Option, none, some, List, [], ◌∷◌, arith, ltb,
  ◌==◌, Bool-cases, Option-cases, Bytes, All,
}
use packet_inspector.Packet.{Verdict}
use packet_inspector.Extractor.Table.{find}
use packet_inspector.Extractor.State.{
  waiting, Conn, Event, connection_start, message_ready, connection_end, Reassembler, Extractor,
  is_blocking, wait_idle_timeout, sweep_interval,
}
use packet_inspector.Extractor.Ring.{publish}
use packet_inspector.Extractor.Callbacks.{
  on_connection_start, on_message_ready, on_connection_end, dispatch, dispatch_all,
}
use packet_inspector.Extractor.Feed.{
  is_expired, expired, count_blocked, call, close_all, drain_closes, reclaim, reclaim_all, sweep,
  tick,
}
use packet_inspector.Extractor.Conserve.Tables.{IsTidy}
use packet_inspector.Extractor.Conserve.Settle.{
  Settles, find-erase-some, find-erase_self, resolve-Settles,
}
use packet_inspector.Extractor.Conserve.Sweep.{reclaim-Kept}
use packet_inspector.Extractor.Stable.Callbacks.{resolve-keeps}
use packet_inspector.Extractor.Idle.{IsIdle-IsStable}

-- Every flow that waits and whose key is not listed has not expired.
abbrev AllFresh : ℕ → List ℕ → List (ℕ × Conn) → Type 0
AllFresh now ks m =
    (k : ℕ) (c : Conn)
    → All (λ x. k ≢ x) ks
    → find k m ≡ some c
    → c.state ≡ waiting
    → is_expired now c ≡ false

expired-AllFresh : (now : ℕ) (m : List (ℕ × Conn)) → AllFresh now (expired now m) m
unfolding expired find
expired-AllFresh now [] k c others there is = cc
expired-AllFresh now ((j, d) ∷ m) k c others there is = elim (Bool-cases (is_expired now d)) [
  | inl old ↦
      let listed = rw old at others in
      elim (Bool-cases (j == k)) [
        | inl hit ↦ absurd (listed.0 (ground arith))
        | inr miss ↦ expired-AllFresh now m k c listed.1 (rw miss at there) is
      ]
  | inr fresh ↦ elim (Bool-cases (j == k)) [
    | inl hit ↦ let same : d ≡ c = ground arith in rw same at fresh
    | inr miss ↦ expired-AllFresh now m k c (rw fresh at others) (rw miss at there) is
  ]
]

module _ {ℓ} {R : Type ℓ} (r : Reassembler R) (policy : Option Bytes → Verdict) where
  dispatch_idle : (x : Event) (e : Extractor R) → e.feeding ≡ false → dispatch policy x e ≡ e
  unfolding dispatch on_connection_start on_message_ready on_connection_end
  dispatch_idle (connection_start flow_key) e idle = ground (arith, idle)
  dispatch_idle (message_ready side flow_key bytes) e idle = ground (arith, idle)
  dispatch_idle connection_end e idle = ground (arith, idle)

  dispatch_all_idle :
      (xs : List Event) (e : Extractor R) → e.feeding ≡ false → dispatch_all policy xs e ≡ e
  unfolding dispatch_all
  dispatch_all_idle [] e idle = refl
  dispatch_all_idle (x ∷ xs) e idle = rw (dispatch_idle x e idle) (dispatch_all_idle xs e idle)

  -- While no packet is in the reassembler, its callbacks do nothing.
  call_idle :
      (result : List Event × R) (e : Extractor R)
      → e.feeding ≡ false
      → call r policy result e ≡ record e { reassembly = result.1 }
  unfolding call
  call_idle (events, next) e idle = dispatch_all_idle events (record e { reassembly = next }) idle

  pub close_all_idle :
      (tokens : List ℕ) (e : Extractor R)
      → e.feeding ≡ false
      → (s : R) × (close_all r policy tokens e ≡ record e { reassembly = s })
  unfolding close_all
  close_all_idle [] e idle = (e.reassembly, refl)
  close_all_idle (token ∷ tokens) e idle =
      let result = r.close_connection token e.reassembly in
      let rest = close_all_idle tokens (record e { reassembly = result.1 }) idle in
      (rest.0, rw (close_all, call_idle result e idle) rest.1)

  reclaim-Settles :
      (key : ℕ) (e : Extractor R)
      → IsTidy e.conns
      → Settles key e.conns (reclaim r policy key e).conns
  unfolding reclaim
  reclaim-Settles key e t = elim (Option-cases (find key e.conns)) [
    | inl missing ↦ rw (missing, reclaim) (record { settled = λ d h. cc; others = λ k d ne h. h })
    | inr (c, there) ↦ elim (Bool-cases (is_blocking (some c))) [
      | inl blocked ↦
          rw (there, reclaim, blocked)
            (record {
              settled = λ d h. cc (rw (find-erase_self key e.conns t) at h);
              others = λ k d ne h. find-erase-some k key e.conns t h;
            })
      | inr waits ↦ rw (there, reclaim, waits) (resolve-Settles policy key none e t)
    ]
  ]

  reclaim-IsIdle :
      (key : ℕ) (e : Extractor R)
      → IsTidy e.conns
      → e.feeding ≡ false
      → (reclaim r policy key e).feeding ≡ false
  unfolding reclaim
  reclaim-IsIdle key e t idle = elim (Option-cases (find key e.conns)) [
    | inl missing ↦ rw (missing, reclaim) idle
    | inr (c, there) ↦ elim (Bool-cases (is_blocking (some c))) [
      | inl blocked ↦ rw (there, reclaim, blocked) idle
      | inr waits ↦
          rw (there, reclaim, waits) (resolve-keeps policy (IsIdle-IsStable policy) key e tt t idle)
    ]
  ]

  reclaim_all-AllFresh :
      (now : ℕ) (ks : List ℕ) (e : Extractor R)
      → IsTidy e.conns
      → e.feeding ≡ false
      → AllFresh now ks e.conns
      → AllFresh now [] (reclaim_all r policy ks e).conns
        × ((reclaim_all r policy ks e).feeding ≡ false)
  unfolding reclaim_all
  reclaim_all-AllFresh now [] e t idle fresh = (fresh, idle)
  reclaim_all-AllFresh now (key ∷ ks) e t idle fresh =
      let k = reclaim-Kept r policy 0 key e t in
      let after = reclaim-Settles key e t in
      reclaim_all-AllFresh now ks (reclaim r policy key e) k.tidy (reclaim-IsIdle key e t idle)
        λ j c others there is. elim (Bool-cases (j == key)) [
          | inl hit ↦
              let same : j ≡ key = ground arith in
              let blocked = after.settled c (rw same at there) in absurd (ground arith)
          | inr miss ↦
              let ne : j ≢ key = λ h. ground arith in
              fresh j c (ne, others) (after.others j c ne there) is
        ]

  sweep-AllFresh :
      (now : ℕ) (e : Extractor R)
      → IsTidy e.conns
      → e.feeding ≡ false
      → AllFresh now [] (sweep r policy now e).conns
  unfolding sweep publish drain_closes
  sweep-AllFresh now e t idle =
      let counted = record e { blocked = count_blocked e.conns } in
      let reclaimed = reclaim_all r policy (expired now e.conns) counted in
      let fresh =
        reclaim_all-AllFresh now (expired now e.conns) counted t idle
          (expired-AllFresh now e.conns) in
      let purged = r.purge_closed reclaimed.reassembly in
      rw (call_idle purged reclaimed fresh.1) (
        rw
          (close_all_idle reclaimed.to_close (record reclaimed { reassembly = purged.1 }) fresh.1).1
          fresh.0)

  -- Between two packets, on a table in which blocked flows hold nothing and no key stands twice, once a
  -- second has passed since the last sweep: after `tick`, every flow that still waits for its hostname
  -- has had a packet within the last 10 seconds.
  pub tick_fresh :
      (now : ℕ) (e : Extractor R)
      → IsTidy e.conns
      → e.feeding ≡ false
      → sweep_interval ≤ now - e.last_sweep
      → (k : ℕ) (c : Conn) → find k (tick r policy now e).conns ≡ some c
      → c.state ≡ waiting
      → now - c.last < wait_idle_timeout
  unfolding tick is_expired
  tick_fresh now e t idle due k c there is =
      elim (Bool-cases (ltb (now - e.last_sweep) sweep_interval)) [
        | inl early ↦ absurd (ground arith)
        | inr late ↦
            let fresh =
              sweep-AllFresh now (record e { last_sweep = now }) t idle k c tt (rw late at there)
                is in
            let within = rw is at fresh in ground arith
      ]
