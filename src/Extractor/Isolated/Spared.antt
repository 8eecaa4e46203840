-- ===== src/Extractor/Isolated/Spared.antt =====
-- Which entries `remember_blocked`, `evict_oldest_blocked`, `resolve` and the expiry of
-- src/hostname_extractor.cpp leave alone.
use packet_inspector.Base.{
  ℕ, zero, suc, ◌≡◌, ◌≢◌, refl, ◌∙◌, inl, inr, true, false, not, ◌&&◌, Option, some, List, [], ◌∷◌,
  arith, ◌==◌, Bool-cases, Bytes, get_or, All,
}
use packet_inspector.Packet.{Verdict, allow, block}
use packet_inspector.Extractor.Table.{find, update}
use packet_inspector.Extractor.State.{waiting, Conn, Extractor, is_blocking, block_conn}
use packet_inspector.Extractor.Ring.{publish, forget_blocked, take_slot, remember_blocked, evict}
use packet_inspector.Extractor.Callbacks.{defer_close, settle, resolve_conn}
use packet_inspector.Extractor.Feed.{is_expired, expired}
use packet_inspector.Extractor.Conserve.Tables.{IsTidy}
use packet_inspector.Extractor.Conserve.Settle.{
  find-update_other, park_all-conns, defer_close-conns,
}
use packet_inspector.Extractor.Resolved.{find-erase_other}

pub All-expired :
    (key now : ℕ) (m : List (ℕ × Conn))
    → ((d : Conn) → find key m ≡ some d → is_expired now d ≡ false)
    → IsTidy m
    → All (λ k. k ≢ key) (expired now m)
unfolding expired find
All-expired key now [] fresh t = tt
All-expired key now ((j, d) ∷ m) fresh t = elim (Bool-cases (j == key)) [
  | inl hit ↦
      let same : j ≡ key = ground arith in
      let young : is_expired now d ≡ false = fresh d (rw hit refl) in
      rw young (All-expired key now m (λ x h. let gone = rw same at t.1 in cc (rw gone at h)) t.2)
  | inr miss ↦
      let ne : j ≢ key = λ z. ground arith in
      let rest = All-expired key now m (λ x h. fresh x (rw miss h)) t.2 in
      elim (Bool-cases (is_expired now d)) [
        | inl old ↦ rw old (ne, rest)
        | inr young ↦ rw young rest
      ]
]

module _ (key : ℕ) {c : Conn} (is : c.state ≡ waiting) where
  not_blocking : (m : List (ℕ × Conn)) → find key m ≡ some c → is_blocking (find key m) ≡ false
  not_blocking m there = rw there (ground (arith, is))

  spares :
      (victim : ℕ) (m : List (ℕ × Conn))
      → find key m ≡ some c
      → is_blocking (find victim m) ≡ true
      → key ≢ victim
  spares victim m there blocked z =
      let waits = not_blocking m there in
      let held = rw z at waits in absurd (ground (arith, held, blocked))

module _ {ℓ} {R : Type ℓ} (key : ℕ) {c : Conn} (is : c.state ≡ waiting) where
  forget_blocked-spares :
      (victim : ℕ) (e : Extractor R)
      → find key e.conns ≡ some c
      → find key (forget_blocked victim e).conns ≡ some c
  unfolding forget_blocked publish
  forget_blocked-spares victim e there = elim (Bool-cases (is_blocking (find victim e.conns))) [
    | inl blocked ↦
        rw blocked
          (find-erase_other key victim e.conns (spares key is victim e.conns there blocked) ∙ there)
    | inr other ↦ rw other there
  ]

  remember_blocked-spares :
      (k : ℕ) (e : Extractor R)
      → find key e.conns ≡ some c
      → find key (remember_blocked k e).conns ≡ some c
  unfolding remember_blocked
  remember_blocked-spares k e there =
      let victim = get_or e.block_ring e.block_next 0 in
      elim (Bool-cases (not (victim == 0) && not (victim == k))) [
        | inl other ↦ rw other (forget_blocked-spares victim e there)
        | inr own ↦ rw own there
      ]

  pub evict-spares :
      (tries : ℕ) (e : Extractor R)
      → find key e.conns ≡ some c
      → find key (evict tries e).0.conns ≡ some c
  unfolding evict publish
  evict-spares zero e there = there
  evict-spares (suc tries) e there =
      let victim = get_or e.block_ring e.block_next 0 in
      elim (Bool-cases (not (victim == 0) && is_blocking (find victim e.conns))) [
        | inl hit ↦
            let blocked : is_blocking (find victim e.conns) ≡ true = ground arith in
            rw (hit, evict)
              (find-erase_other key victim e.conns (spares key is victim e.conns there blocked)
                ∙ there)
        | inr free ↦ rw (free, evict) (evict-spares tries (take_slot 0 e) there)
      ]

  settle-spares :
      (v : Verdict) (k : ℕ) (d : Conn) (e : Extractor R)
      → key ≢ k
      → find key e.conns ≡ some c
      → find key (settle v k d e).conns ≡ some c
  unfolding settle
  settle-spares allow k d e ne there = find-erase_other key k e.conns ne ∙ there
  settle-spares block k d e ne there =
      remember_blocked-spares k (record e { conns = update k (block_conn d) e.conns })
        (find-update_other key k (block_conn d) e.conns ne ∙ there)

  pub resolve_conn-spares :
      (policy : Option Bytes → Verdict) (k : ℕ) (hostname : Option Bytes) (d : Conn)
      (e : Extractor R)
      → d.state ≡ waiting
      → key ≢ k
      → find key e.conns ≡ some c
      → find key (resolve_conn policy k hostname d e).conns ≡ some c
  unfolding resolve_conn
  resolve_conn-spares policy k hostname d e waits ne there =
      let v = policy hostname in
      let settled_e = settle v k d e in
      rw (waits, resolve_conn)
        (rw (park_all-conns d.held v (defer_close d settled_e), defer_close-conns d settled_e)
          (settle-spares v k d e ne there))
