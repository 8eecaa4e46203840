-- ===== src/Extractor/Blocked/Count.antt =====
-- How many flows are blocked, which src/hostname_extractor.cpp counts in `sweep`, against the size of
-- the ring.
use packet_inspector.Base.{
  ℕ, zero, suc, ◌+◌, ◌≤◌, ◌≡◌, ◌≢◌, refl, sym, inl, inr, some, List, [], ◌∷◌, arith, ◌==◌,
  if◌then◌else◌, Bool-cases, Option-cases, length, get_or,
}
use packet_inspector.Extractor.Table.{find, erase}
use packet_inspector.Extractor.State.{blocking, Conn, Extractor, is_blocking}
use packet_inspector.Extractor.Feed.{count_blocked}
use packet_inspector.Extractor.Conserve.Tables.{IsTidy, erase-IsTidy}
use packet_inspector.Extractor.Conserve.Settle.{find-erase-some, find-erase_self}
use packet_inspector.Extractor.Stable.{core}
use packet_inspector.Extractor.Blocked.{InRing, IsRemembered}

-- 1 if the flow is blocked, 0 otherwise.
abbrev pub blocked_at : ℕ → List (ℕ × Conn) → ℕ
blocked_at k m = if is_blocking (find k m) then 1 else 0

count_blocked-erase :
    (k : ℕ) (m : List (ℕ × Conn)) → count_blocked m ≡ count_blocked (erase k m) + blocked_at k m
unfolding count_blocked erase find
count_blocked-erase k [] = refl
count_blocked-erase k ((j, c) ∷ m) = elim (Bool-cases (j == k)) [
  | inl hit ↦ rw hit (omega arith)
  | inr miss ↦ rw miss (omega (arith, count_blocked-erase k m))
]

count_blocked-none :
    (m : List (ℕ × Conn))
    → IsTidy m
    → ((k : ℕ) (c : Conn) → find k m ≡ some c → c.state ≢ blocking)
    → count_blocked m ≡ 0
unfolding count_blocked find
count_blocked-none [] t none_is = refl
count_blocked-none ((j, c) ∷ m) t none_is = elim (Bool-cases (is_blocking (some c))) [
  | inl is ↦ absurd (none_is j c (ground arith) (ground arith))
  | inr other ↦ rw other (omega (arith, count_blocked-none m t.2 later))
]
  where
    later : (k : ℕ) (d : Conn) → find k m ≡ some d → d.state ≢ blocking
    later k d h = none_is k d (elim (Bool-cases (j == k)) [
      | inl hit ↦ let same : j ≡ k = ground arith in let gone = rw same at t.1 in cc (rw gone at h)
      | inr miss ↦ rw miss h
    ])

blocked_at-le : (k : ℕ) (m : List (ℕ × Conn)) → blocked_at k m ≤ 1
blocked_at-le k m = ground arith

blocked_at-erase :
    (j k : ℕ) (m : List (ℕ × Conn)) → IsTidy m → blocked_at j (erase k m) ≤ blocked_at j m
blocked_at-erase j k m t = elim (Option-cases (find j (erase k m))) [
  | inl gone ↦ rw gone (omega arith)
  | inr (c, there) ↦ rw (there, find-erase-some j k m t there) (omega arith)
]

-- A ring bounds the blocked flows whose keys it has.
count_blocked-le :
    (ring : List ℕ) (m : List (ℕ × Conn))
    → IsTidy m
    → ((k : ℕ) (c : Conn) → find k m ≡ some c → c.state ≡ blocking → k ≢ 0 → InRing k ring)
    → count_blocked m ≤ length ring + blocked_at 0 m
count_blocked-le [] m t has =
    omega (arith, count_blocked-erase 0 m, count_blocked-none (erase 0 m) (erase-IsTidy 0 m t) only)
  where
    only : (k : ℕ) (c : Conn) → find k (erase 0 m) ≡ some c → c.state ≢ blocking
    only k c h is = elim (Bool-cases (k == 0)) [
      | inl hit ↦
          let own : k ≡ 0 = ground arith in
          let gone = find-erase_self 0 m t in cc (rw (own, gone) at h)
      | inr miss ↦
          let nz : k ≢ 0 = λ z. ground arith in
          absurd (nz (sym (has k c (find-erase-some k 0 m t h) is nz).1))
    ]
count_blocked-le (v ∷ ring) m t has = omega (
  arith,
  count_blocked-erase v m,
  blocked_at-le v m,
  blocked_at-erase 0 v m t,
  count_blocked-le ring (erase v m) (erase-IsTidy v m t) rest,
)
  where
    in_rest : (k i : ℕ) → k ≢ v → get_or (v ∷ ring) i 0 ≡ k → InRing k ring
    in_rest k zero ne is = absurd (ne (sym is))
    in_rest k (suc i) ne is = (i, is)

    rest :
        (k : ℕ) (c : Conn)
        → find k (erase v m) ≡ some c
        → c.state ≡ blocking
        → k ≢ 0
        → InRing k ring
    rest k c h is nz =
        let slot = has k c (find-erase-some k v m t h) is nz in
        let gone = find-erase_self v m t in in_rest k slot.0 (λ z. cc (rw (z, gone) at h)) slot.1

pub IsRemembered-bounds {ℓ} :
    {R : Type ℓ} (size : ℕ) (e : Extractor R)
    → IsTidy e.conns
    → IsRemembered size (core e)
    → count_blocked e.conns ≤ size + blocked_at 0 e.conns
IsRemembered-bounds size e t p =
    omega (arith, count_blocked-le e.block_ring e.conns t p.in_ring, p.ring_length, p.same_max)
