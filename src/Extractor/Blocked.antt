-- ===== src/Extractor/Blocked.antt =====
-- The ring of blocked flows: `remember_blocked` and `evict_oldest_blocked` of src/hostname_extractor.cpp.
pub mod Evict
pub mod Guarded
pub mod Count
pub mod Oldest
pub mod Turned
pub mod Fifo
use packet_inspector.Base.{
  ℕ, zero, suc, ◌+◌, ◌%◌, ◌≤◌, ◌<◌, ◌≡◌, ◌≢◌, refl, ap, sym, ◌∙◌, inl, inr, Bool, true, false, not,
  ◌&&◌, Option, none, some, List, [], ◌∷◌, arith, ◌==◌, if◌then◌else◌, Bool-cases, length, get_or,
  set, length-set,
}
use packet_inspector.Packet.{Packet, Verdict, allow, block}
use packet_inspector.Extractor.Table.{find, erase, update, insert}
use packet_inspector.Extractor.State.{
  waiting, blocking, Conn, new_conn, Extractor, is_blocking, block_conn,
}
use packet_inspector.Extractor.Ring.{publish, park_all, forget_blocked, take_slot, remember_blocked}
use packet_inspector.Extractor.Callbacks.{defer_close, settle, resolve_conn}
use packet_inspector.Extractor.Conserve.Tables.{IsTidy, update-IsTidy}
use packet_inspector.Extractor.Conserve.Settle.{
  find-erase-some, find-erase_self, find-update_other, remember_blocked-Shrinks,
}
use packet_inspector.Extractor.Stable.{Core, core}

-- The key stands in a slot.
abbrev pub InRing : ℕ → List ℕ → Type 0
InRing k ring = (i : ℕ) × (get_or ring i 0 ≡ k)

-- Every blocked flow has its key in the ring, but the flow with the key 0, which marks a free slot.
pub record IsRemembered (m : ℕ) (s : Core) : Type 0 where
  pub same_max : s.max_blocked ≡ m
  pub ring_length : length s.block_ring ≡ s.max_blocked
  pub next_inside : s.block_next < s.max_blocked
  pub in_ring :
      (k : ℕ) (c : Conn)
      → find k s.conns ≡ some c
      → c.state ≡ blocking
      → k ≢ 0
      → InRing k s.block_ring

pub get_or-set_self : (ring : List ℕ) (n v : ℕ) → n < length ring → get_or (set ring n v) n 0 ≡ v
get_or-set_self [] n v h = absurd (omega arith)
get_or-set_self (x ∷ ring) zero v h = refl
get_or-set_self (x ∷ ring) (suc n) v h = get_or-set_self ring n v (omega arith)

pub get_or-set_other :
    (ring : List ℕ) (n i v : ℕ) → i ≢ n → get_or (set ring n v) i 0 ≡ get_or ring i 0
get_or-set_other [] n i v h = refl
get_or-set_other (x ∷ ring) zero zero v h = absurd (h refl)
get_or-set_other (x ∷ ring) zero (suc i) v h = refl
get_or-set_other (x ∷ ring) (suc n) zero v h = refl
get_or-set_other (x ∷ ring) (suc n) (suc i) v h = get_or-set_other ring n i v (λ e. h (ap suc e))

-- A key that is not the one in the slot that is overwritten stays.
pub InRing-set :
    (ring : List ℕ) (n v k : ℕ) → k ≢ get_or ring n 0 → InRing k ring → InRing k (set ring n v)
InRing-set ring n v k ne (i, is) = elim (Bool-cases (i == n)) [
  | inl hit ↦ let same : i ≡ n = ground arith in absurd (ne (sym (rw same at is)))
  | inr miss ↦ let other : i ≢ n = λ e. ground arith in (i, get_or-set_other ring n i v other ∙ is)
]

pub blocking-is_blocking :
    (k : ℕ) (m : List (ℕ × Conn)) {c : Conn}
    → find k m ≡ some c
    → c.state ≡ blocking
    → is_blocking (find k m) ≡ true
blocking-is_blocking k m {c} there is = rw there (ground arith)

module _ {ℓ} {R : Type ℓ} where
  pub write-IsRemembered :
      (m key : ℕ) (c w : Conn) (e : Extractor R)
      → find key e.conns ≡ some c
      → w.state ≡ c.state
      → find key (update key w e.conns) ≡ some w
      → IsRemembered m (core e)
      → IsRemembered m (core (record e { conns = update key w e.conns }))
  write-IsRemembered m key c w e there same now p = record {
    same_max = p.same_max;
    ring_length = p.ring_length;
    next_inside = p.next_inside;
    in_ring = λ k d h is nz. elim (Bool-cases (k == key)) [
      | inl hit ↦
          let own : k ≡ key = ground arith in
          let is_w : some w ≡ some d = sym now ∙ (rw own at h) in
          let blocks : c.state ≡ blocking = sym same ∙ (ground arith) in
          rw own (p.in_ring key c there blocks (λ z. nz (own ∙ z)))
      | inr miss ↦
          let ne : k ≢ key = λ z. ground arith in
          p.in_ring k d (rw (find-update_other k key w e.conns ne) at h) is nz
    ];
  }
