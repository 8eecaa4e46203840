-- ===== src/Extractor/Blocked/Oldest.antt =====
-- Which flow `evict_oldest_blocked` of src/hostname_extractor.cpp gives up.
use packet_inspector.Base.{
  ℕ, zero, suc, ◌+◌, ◌-◌, ◌%◌, ◌≤◌, ◌<◌, ◌≡◌, ◌≢◌, ◌⊎◌, refl, sym, ◌∙◌, inl, inr, true, false, not,
  ◌&&◌, Option, some, List, [], ◌∷◌, arith, ◌==◌, ltb, ltb→lt, le_of_ltb, Bool-cases, Bytes, length,
  get_or, set,
}
use packet_inspector.Packet.{Packet, Verdict}
use packet_inspector.Extractor.Table.{find, erase}
use packet_inspector.Extractor.State.{
  blocking, Conn, Reassembler, Extractor, is_blocking, new_extractor,
}
use packet_inspector.Extractor.Ring.{publish, take_slot, evict, evict_oldest_blocked}
use packet_inspector.Extractor.Stable.{core}
use packet_inspector.Extractor.Reached.{Reached, new_extractor-IsSound, Reached-IsSound}
use packet_inspector.Extractor.Blocked.{IsRemembered, get_or-set_other, blocking-is_blocking}

-- A slot and the ones that follow it, around the ring.
mod_small : (a m : ℕ) → a < m → a % m ≡ a
mod_small a m h = grind arith

mod_all : (m : ℕ) → 0 < m → m % m ≡ 0
mod_all m h = grind arith

mod_wrap : (a j m : ℕ) → a ≡ m + j → j < m → a % m ≡ j
mod_wrap a j m e h = rw e (grind arith)

mod_next : (n j m : ℕ) → n < m → suc j < m → ((n + 1) % m + j) % m ≡ (n + suc j) % m
mod_next n j m h k = elim (Bool-cases (ltb (n + 1) m)) [
  | inl inside ↦
      let same : (n + 1) % m ≡ n + 1 = mod_small (n + 1) m (ltb→lt _ _ inside) in
      let sum : n + 1 + j ≡ n + suc j = omega arith in rw (same, sum) refl
  | inr beyond ↦
      let full : n + 1 ≡ m = omega (arith, le_of_ltb _ _ beyond, h) in
      let none_left : (n + 1) % m ≡ 0 = rw full (mod_all m (omega (arith, h))) in
      let wraps : (n + suc j) % m ≡ j =
        mod_wrap (n + suc j) j m (omega (arith, full)) (omega (arith, k)) in
      rw (none_left, wraps) (mod_small (0 + j) m (omega (arith, k)) ∙ omega arith)
]

mod_other : (n j m : ℕ) → n < m → suc j < m → (n + suc j) % m ≢ n
mod_other n j m h k e = absurd (grind arith)

mod_self : (n m : ℕ) → n < m → (n + 0) % m ≡ n
mod_self n m h = grind arith

mod_lt : (n m : ℕ) → 0 < m → n % m < m
mod_lt n m h = grind arith

mod_back : (n i m : ℕ) → n < m → i < m → (n + (i + m - n) % m) % m ≡ i
mod_back n i m h k = grind arith

-- The slot has no key of a blocked flow, but for the key 0.
abbrev IsFree : List ℕ → List (ℕ × Conn) → ℕ → Type 0
IsFree ring m i = (not (get_or ring i 0 == 0) && is_blocking (find (get_or ring i 0) m)) ≡ false

-- The slots behind the first one, in the ring whose first one has been cleared.
IsFree-slots :
    (ring : List ℕ) (m : List (ℕ × Conn)) (next size tries : ℕ)
    → next < size
    → suc tries ≤ size
    → IsFree ring m next
    → ((j : ℕ) → j < tries → IsFree (set ring next 0) m (((next + 1) % size + j) % size))
    → (j : ℕ) → j < suc tries
    → IsFree ring m ((next + j) % size)
IsFree-slots ring m next size tries inside few free later zero h =
    rw (mod_self next size inside) free
IsFree-slots ring m next size tries inside few free later (suc j) h =
    let slot : suc j < size = omega (arith, h, few) in
    let moved = rw (mod_next next j size inside slot) at (later j (omega (arith, h))) in
    rw (get_or-set_other ring next ((next + suc j) % size) 0 (mod_other next j size inside slot)) at
      moved

get_or_beyond : (ring : List ℕ) (i : ℕ) → length ring ≤ i → get_or ring i 0 ≡ 0
get_or_beyond [] i h = refl
get_or_beyond (x ∷ ring) zero h = absurd (omega (arith, h))
get_or_beyond (x ∷ ring) (suc i) h = get_or_beyond ring i (omega (arith, h))

module _ {ℓ} {R : Type ℓ} where
  -- Nothing was freed: the table is the same, and the slots that were tried are free.
  record GaveUp (tries : ℕ) (e : Extractor R) : Type 0 where
    same_conns : (evict tries e).0.conns ≡ e.conns
    all_free :
        (j : ℕ) → j < tries → IsFree e.block_ring e.conns ((e.block_next + j) % e.max_blocked)

  -- A blocked flow, with a key that is not 0, was given up.
  record GaveOne (tries : ℕ) (e : Extractor R) : Type 0 where
    victim : ℕ
    was_blocked : is_blocking (find victim e.conns) ≡ true
    nonzero : victim ≢ 0
    others : (evict tries e).0.conns ≡ erase victim e.conns

  evict-cases :
      (tries : ℕ) (e : Extractor R)
      → tries ≤ e.max_blocked
      → e.block_next < e.max_blocked
      → (((evict tries e).1 ≡ true) × GaveOne tries e)
        ⊎ (((evict tries e).1 ≡ false) × GaveUp tries e)
  unfolding evict publish
  evict-cases zero e few inside =
      inr (refl, record { same_conns = refl; all_free = λ j h. absurd (omega (arith, h)) })
  evict-cases (suc tries) e few inside =
      let victim = get_or e.block_ring e.block_next 0 in
      let freed = take_slot 0 e in
      elim (Bool-cases (not (victim == 0) && is_blocking (find victim e.conns))) [
        | inl hit ↦ inl (
          rw (hit, evict) refl,
          record {
            victim = victim;
            was_blocked = ground arith;
            nonzero = λ z. ground arith;
            others = rw (hit, evict) refl;
          },
        )
        | inr free ↦
            elim (evict-cases tries freed (omega (arith, few))
              (mod_lt (e.block_next + 1) e.max_blocked (omega (arith, inside)))) [
                | inl (hit, one) ↦ inl (
                  rw (free, evict) hit,
                  record {
                    victim = one.victim;
                    was_blocked = one.was_blocked;
                    nonzero = one.nonzero;
                    others = rw (free, evict) one.others;
                  },
                )
                | inr (missed, up) ↦ inr (
                  rw (free, evict) missed,
                  record {
                    same_conns = rw (free, evict) up.same_conns;
                    all_free =
                        IsFree-slots e.block_ring e.conns e.block_next e.max_blocked tries inside
                          few free up.all_free;
                  },
                )
              ]
      ]

  -- With all slots tried, a blocked flow that is left has the key 0.
  GaveUp-key :
      (size : ℕ) (e : Extractor R)
      → IsRemembered size (core e)
      → GaveUp e.max_blocked e
      → (k : ℕ) (c : Conn) → find k e.conns ≡ some c
      → c.state ≡ blocking
      → k ≡ 0
  GaveUp-key size e p up k c there is = elim (Bool-cases (k == 0)) [
    | inl hit ↦ ground arith
    | inr miss ↦
        let nz : k ≢ 0 = λ z. ground arith in
        let (i, slot) = p.in_ring k c there is nz in
        let inside : i < e.max_blocked = elim (Bool-cases (ltb i e.max_blocked)) [
          | inl within ↦ ltb→lt _ _ within
          | inr beyond ↦
              let past : length e.block_ring ≤ i =
                omega (arith, le_of_ltb _ _ beyond, p.ring_length) in
              absurd (nz (sym slot ∙ get_or_beyond e.block_ring i past))
        ] in
        let j = (i + e.max_blocked - e.block_next) % e.max_blocked in
        let free =
          up.all_free j
            (mod_lt (i + e.max_blocked - e.block_next) e.max_blocked (omega (arith, inside))) in
        let at_i = rw (mod_back e.block_next i e.max_blocked p.next_inside inside, slot) at free in
        let blocked = blocking-is_blocking k e.conns there is in absurd (ground arith)
  ]

pub evict_oldest_blocked-cases {ℓ} :
    {R : Type ℓ} (r : Reassembler R) (policy : Option Bytes → Verdict) (reassembly : R)
    (max_flows max_blocked : ℕ) (pkts : List Packet) (e : Extractor R)
    → Reached r policy (new_extractor reassembly max_flows max_blocked) pkts e
    → (((evict_oldest_blocked e).1 ≡ true)
        × ((k : ℕ) × (k ≢ 0)
            × (is_blocking (find k e.conns) ≡ true)
            × ((evict_oldest_blocked e).0.conns ≡ erase k e.conns)))
      ⊎ (((evict_oldest_blocked e).1 ≡ false)
          × ((evict_oldest_blocked e).0.conns ≡ e.conns)
          × ((k : ℕ) (c : Conn) → find k e.conns ≡ some c → c.state ≡ blocking → k ≡ 0))
unfolding evict_oldest_blocked
evict_oldest_blocked-cases r policy reassembly max_flows max_blocked pkts e way =
    let s =
      Reached-IsSound r policy (new_extractor-IsSound r policy reassembly max_flows max_blocked)
        way in
    elim (evict-cases e.max_blocked e (omega arith) s.remembered.next_inside) [
      | inl (hit, one) ↦ inl (hit, (one.victim, one.nonzero, one.was_blocked, one.others))
      | inr (miss, up) ↦ inr (
        miss,
        up.same_conns,
        GaveUp-key (new_extractor reassembly max_flows max_blocked).max_blocked e s.remembered up,
      )
    ]
