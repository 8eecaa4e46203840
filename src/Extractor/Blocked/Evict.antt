-- ===== src/Extractor/Blocked/Evict.antt =====
-- The ring under `resolve`, `remember_blocked` and `evict_oldest_blocked`.
use packet_inspector.Base.{
  ℕ, zero, suc, ◌+◌, ◌%◌, ◌<◌, ◌≡◌, ◌≢◌, refl, sym, ◌∙◌, inl, inr, not, ◌&&◌, some, List, [], ◌∷◌,
  arith, ◌==◌, Bool-cases, length, get_or, length-set,
}
use packet_inspector.Packet.{Packet, Verdict, allow, block}
use packet_inspector.Extractor.Table.{find, erase, update, insert}
use packet_inspector.Extractor.State.{blocking, Conn, new_conn, Extractor, is_blocking, block_conn}
use packet_inspector.Extractor.Ring.{
  publish, park, park_all, forget_blocked, take_slot, remember_blocked, evict,
}
use packet_inspector.Extractor.Callbacks.{defer_close, settle}
use packet_inspector.Extractor.Conserve.Tables.{IsTidy, update-IsTidy}
use packet_inspector.Extractor.Conserve.Settle.{find-erase-some, find-erase_self, find-update_other}
use packet_inspector.Extractor.Stable.{core}
use packet_inspector.Extractor.Blocked.{
  InRing, IsRemembered, get_or-set_self, InRing-set, blocking-is_blocking,
}

pub mod-lt : (n m : ℕ) → 0 < m → n % m < m
mod-lt n m h = grind arith

module _ {ℓ} {R : Type ℓ} (size : ℕ) where
  pub erase-IsRemembered :
      (key : ℕ) (e : Extractor R)
      → IsTidy e.conns
      → IsRemembered size (core e)
      → IsRemembered size (core (record e { conns = erase key e.conns }))
  erase-IsRemembered key e t p = record {
    same_max = p.same_max;
    ring_length = p.ring_length;
    next_inside = p.next_inside;
    in_ring = λ k c h is nz. p.in_ring k c (find-erase-some k key e.conns t h) is nz;
  }

  -- The key is stored, and every other blocked flow had its key in the ring, in another slot.
  take_slot-IsRemembered :
      (key : ℕ) (m : List (ℕ × Conn)) (e : Extractor R)
      → e.max_blocked ≡ size
      → length e.block_ring ≡ e.max_blocked
      → e.block_next < e.max_blocked
      → ((k : ℕ) (c : Conn)
          → find k m ≡ some c
          → c.state ≡ blocking
          → k ≢ 0
          → k ≢ key
          → InRing k e.block_ring × (k ≢ get_or e.block_ring e.block_next 0))
      → IsRemembered size (core (take_slot key (record e { conns = m })))
  take_slot-IsRemembered key m e same len inside keeps = record {
    same_max = same;
    ring_length = length-set e.block_ring e.block_next key ∙ len;
    next_inside = mod-lt (e.block_next + 1) e.max_blocked (omega (arith, inside));
    in_ring = λ k c h is nz. elim (Bool-cases (k == key)) [
      | inl hit ↦
          let own : k ≡ key = ground arith in
          let slot : e.block_next < length e.block_ring = omega (arith, inside, len) in
          (e.block_next, get_or-set_self e.block_ring e.block_next key slot ∙ sym own)
      | inr miss ↦
          let ne : k ≢ key = λ z. ground arith in
          let kept = keeps k c h is nz ne in
          InRing-set e.block_ring e.block_next key k kept.1 kept.0
    ];
  }

  remember_blocked-IsRemembered :
      (key : ℕ) (e : Extractor R)
      → IsTidy e.conns
      → e.max_blocked ≡ size
      → length e.block_ring ≡ e.max_blocked
      → e.block_next < e.max_blocked
      → ((k : ℕ) (c : Conn)
          → find k e.conns ≡ some c
          → c.state ≡ blocking
          → k ≢ 0
          → k ≢ key
          → InRing k e.block_ring)
      → IsRemembered size (core (remember_blocked key e))
  unfolding remember_blocked forget_blocked publish
  remember_blocked-IsRemembered key e t same len inside keeps =
      let victim = get_or e.block_ring e.block_next 0 in
      elim (Bool-cases (not (victim == 0) && not (victim == key))) [
        | inr own ↦ rw own (
            take_slot-IsRemembered key e.conns e same len inside
              λ k c h is nz ne. (keeps k c h is nz ne, λ z. ground arith))
        | inl other ↦ rw other (elim (Bool-cases (is_blocking (find victim e.conns))) [
          | inl blocked ↦ rw blocked (
              take_slot-IsRemembered key (erase victim e.conns) e same len inside λ k c h is nz ne.
                (
                  keeps k c (find-erase-some k victim e.conns t h) is nz ne,
                  λ z. let gone = find-erase_self victim e.conns t in cc (rw (z, gone) at h),
                ))
          | inr free ↦ rw free (
              take_slot-IsRemembered key e.conns e same len inside λ k c h is nz ne. (
                keeps k c h is nz ne,
                λ z. let there = rw z at h in cc (blocking-is_blocking victim e.conns there is),
              ))
        ])
      ]

  pub settle-IsRemembered :
      (v : Verdict) (key : ℕ) (c : Conn) (e : Extractor R)
      → IsTidy e.conns
      → IsRemembered size (core e)
      → IsRemembered size (core (settle v key c e))
  unfolding settle
  settle-IsRemembered allow key c e t p = erase-IsRemembered key e t p
  settle-IsRemembered block key c e t p =
      remember_blocked-IsRemembered key (record e { conns = update key (block_conn c) e.conns })
        (update-IsTidy key (block_conn c) e.conns (λ _. refl) t) p.same_max p.ring_length
        p.next_inside
        λ k d h is nz ne.
          p.in_ring k d (rw (find-update_other k key (block_conn c) e.conns ne) at h) is nz

  pub evict-IsRemembered :
      (tries : ℕ) (e : Extractor R)
      → IsTidy e.conns
      → IsRemembered size (core e)
      → IsRemembered size (core (evict tries e).0)
  unfolding evict publish
  evict-IsRemembered zero e t p = p
  evict-IsRemembered (suc tries) e t p =
      let victim = get_or e.block_ring e.block_next 0 in
      elim (Bool-cases (not (victim == 0) && is_blocking (find victim e.conns))) [
        | inl hit ↦
            rw (hit, evict)
              (take_slot-IsRemembered 0 (erase victim e.conns) e p.same_max p.ring_length
                p.next_inside
                λ k c h is nz ne. (
                  p.in_ring k c (find-erase-some k victim e.conns t h) is nz,
                  λ z. let gone = find-erase_self victim e.conns t in cc (rw (z, gone) at h),
                ))
        | inr free ↦
            rw (free, evict)
              (evict-IsRemembered tries (take_slot 0 e) t (
                take_slot-IsRemembered 0 e.conns e p.same_max p.ring_length p.next_inside
                  λ k c h is nz ne. (
                    p.in_ring k c h is nz,
                    λ z.
                        let there = rw z at h in
                        let blocked = blocking-is_blocking victim e.conns there is in ground arith,
                  )))
      ]

  pub park_all-IsRemembered :
      (pkts : List Packet) (v : Verdict) (e : Extractor R)
      → IsRemembered size (core e)
      → IsRemembered size (core (park_all pkts v e))
  unfolding park_all park
  park_all-IsRemembered [] v e p = p
  park_all-IsRemembered (pkt ∷ pkts) v e p = park_all-IsRemembered pkts v (park pkt v e) (record {
    same_max = p.same_max;
    ring_length = p.ring_length;
    next_inside = p.next_inside;
    in_ring = p.in_ring;
  })

  pub defer_close-IsRemembered :
      (c : Conn) (e : Extractor R)
      → IsRemembered size (core e)
      → IsRemembered size (core (defer_close c e))
  unfolding defer_close
  defer_close-IsRemembered c e p = elim (Bool-cases (not (c.pcpp_key == 0) && not c.pcpp_closed)) [
    | inl closes ↦ rw closes p
    | inr done ↦ rw done p
  ]

  pub insert-IsRemembered :
      (key : ℕ) (e : Extractor R)
      → IsRemembered size (core e)
      → IsRemembered size (core (record e { conns = insert key new_conn e.conns }))
  unfolding insert find
  insert-IsRemembered key e p = record {
    same_max = p.same_max;
    ring_length = p.ring_length;
    next_inside = p.next_inside;
    in_ring = λ k c h is nz. elim (Bool-cases (key == k)) [
      | inl hit ↦ let new : some new_conn ≡ some c = rw hit at h in absurd (ground arith)
      | inr miss ↦ p.in_ring k c (rw miss at h) is nz
    ];
  }
