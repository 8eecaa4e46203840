-- ===== src/Extractor/Blocked/Fifo.antt =====
-- The ring of src/hostname_extractor.cpp as a queue: the slots from the next one on, around to it.
use packet_inspector.Base.{
  ℕ, zero, suc, ◌+◌, ◌%◌, ◌<◌, ◌≡◌, ◌⊎◌, refl, sym, ap, subst, ◌∙◌, inl, inr, Bool, true, false,
  not, ◌&&◌, Option, some, if◌then◌else◌, List, [], ◌∷◌, ◌++◌, arith, ◌==◌, Bool-cases, Bytes,
  length, get_or, set, length-set,
}
use packet_inspector.Packet.{Packet, Verdict}
use packet_inspector.Extractor.Table.{find, erase}
use packet_inspector.Extractor.State.{
  blocking, Conn, Reassembler, Extractor, is_blocking, new_extractor,
}
use packet_inspector.Extractor.Ring.{
  publish, forget_blocked, take_slot, remember_blocked, evict, evict_oldest_blocked,
}
use packet_inspector.Extractor.Blocked.Evict.{mod-lt}
use packet_inspector.Extractor.Reached.{Reached, Reached-IsSound, new_extractor-IsSound}
use packet_inspector.Extractor.Blocked.Oldest.{evict_oldest_blocked-cases}
use packet_inspector.Extractor.Blocked.Turned.{turned, behind, turned-set, GivesUp, GivesUp-later}

abbrev pub queue {ℓ} : {R : Type ℓ} → Extractor R → List ℕ
queue e = turned e.block_next e.block_ring

module _ {ℓ} {R : Type ℓ} where
  take_slot-queue :
      (key : ℕ) (e : Extractor R)
      → length e.block_ring ≡ e.max_blocked
      → e.block_next < e.max_blocked
      → (queue e ≡ get_or e.block_ring e.block_next 0 ∷ behind (queue e))
        × (queue (take_slot key e) ≡ behind (queue e) ++ key ∷ [])
  take_slot-queue key e len inside =
      let t = turned-set e.block_next key e.block_ring (omega (arith, len, inside)) in
      (
        t.0,
        ap (λ m. turned ((e.block_next + 1) % m) (set e.block_ring e.block_next key)) (sym len)
            ∙ t.1,
      )

  remember_blocked-queue :
      (key : ℕ) (e : Extractor R)
      → length e.block_ring ≡ e.max_blocked
      → e.block_next < e.max_blocked
      → queue (remember_blocked key e) ≡ behind (queue e) ++ key ∷ []
  unfolding remember_blocked forget_blocked publish
  remember_blocked-queue key e len inside =
      let victim = get_or e.block_ring e.block_next 0 in
      let taken = (take_slot-queue key e len inside).1 in
      elim (Bool-cases (not (victim == 0) && not (victim == key))) [
        | inl other ↦ rw other (elim (Bool-cases (is_blocking (find victim e.conns))) [
          | inl blocked ↦ rw blocked taken
          | inr free ↦ rw free taken
        ])
        | inr own ↦ rw own taken
      ]

-- The key is the one of a flow that is blocked.
abbrev pub is_live : List (ℕ × Conn) → ℕ → Bool
is_live m k = not (k == 0) && is_blocking (find k m)

-- The slot that is overwritten next.
abbrev pub oldest {ℓ} : {R : Type ℓ} → Extractor R → ℕ
oldest e = get_or e.block_ring e.block_next 0

module _ {ℓ} {R : Type ℓ} where
  remember_blocked-forgets :
      (key : ℕ) (e : Extractor R)
      → (remember_blocked key e).conns ≡ (
          if is_live e.conns (oldest e) && not (oldest e == key)
          then erase (oldest e) e.conns
          else e.conns)
  unfolding remember_blocked forget_blocked publish
  remember_blocked-forgets key e = elim (Bool-cases (oldest e == 0)) [
    | inl free ↦ rw free refl
    | inr used ↦ elim (Bool-cases (oldest e == key)) [
      | inl own ↦ elim (Bool-cases (is_blocking (find (oldest e) e.conns))) [
        | inl blocked ↦ rw (used, own, blocked) refl
        | inr waits ↦ rw (used, own, waits) refl
      ]
      | inr other ↦ elim (Bool-cases (is_blocking (find (oldest e) e.conns))) [
        | inl blocked ↦ rw (used, other, blocked) refl
        | inr waits ↦ rw (used, other, waits) refl
      ]
    ]
  ]

-- What is given up: the first live key of the ring, read as a queue, and its flow in the table.
pub record Evicts {ℓ} {R : Type ℓ} (e e' : Extractor R) : Type 0 where
  pub victim : ℕ
  pub from_ring : GivesUp (is_live e.conns) victim (queue e) (queue e')
  pub from_table : e'.conns ≡ erase victim e.conns

module _ {ℓ} {R : Type ℓ} where
  evict-Evicts :
      (tries : ℕ) (e : Extractor R)
      → length e.block_ring ≡ e.max_blocked
      → e.block_next < e.max_blocked
      → (evict tries e).1 ≡ true
      → Evicts e (evict tries e).0
  unfolding evict publish
  evict-Evicts zero e len inside hit = cc
  evict-Evicts (suc tries) e len inside hit =
      let victim = get_or e.block_ring e.block_next 0 in
      let t = take_slot-queue 0 e len inside in
      elim (Bool-cases (not (victim == 0) && is_blocking (find victim e.conns))) [
        | inl live ↦
            rw (live, evict)
              (record {
                victim = victim;
                from_ring = record {
                  dead = [];
                  rest = behind (queue e);
                  order = t.0;
                  dead_are = tt;
                  victim_is = live;
                  moved = t.1;
                };
                from_table = refl;
              })
        | inr dead ↦
            let freed = take_slot 0 e in
            let later =
              evict-Evicts tries freed (length-set e.block_ring e.block_next 0 ∙ len)
                (mod-lt (e.block_next + 1) e.max_blocked (omega (arith, inside)))
                (rw (dead, evict) at hit) in
            let gives : List ℕ → Type 0 =
              λ q. GivesUp (is_live e.conns) later.victim q (queue (evict tries freed).0) in
            rw (dead, evict)
              (record {
                victim = later.victim;
                from_ring = subst gives (sym t.0) (
                    GivesUp-later (is_live e.conns) victim later.victim (behind (queue e)) _ refl
                      dead (subst gives t.1 later.from_ring));
                from_table = later.from_table;
              })
      ]

-- The ring and the table are handled as a queue of the blocked flows: when one is remembered, and when
-- one is given up.
pub record IsFifo {ℓ} {R : Type ℓ} (key : ℕ) (e : Extractor R) : Type 0 where
  pub remembers : queue (remember_blocked key e) ≡ behind (queue e) ++ key ∷ []
  pub forgets : (remember_blocked key e).conns ≡ (
      if is_live e.conns (oldest e) && not (oldest e == key)
      then erase (oldest e) e.conns
      else e.conns)
  pub gives_up :
      (((evict_oldest_blocked e).1 ≡ true) × Evicts e (evict_oldest_blocked e).0)
      ⊎ (((evict_oldest_blocked e).1 ≡ false)
          × ((evict_oldest_blocked e).0.conns ≡ e.conns)
          × ((k : ℕ) (c : Conn) → find k e.conns ≡ some c → c.state ≡ blocking → k ≡ 0))

-- In every state that a new extractor gets into, with the ring read as a queue from the oldest slot to
-- the youngest: `remember_blocked` drops the oldest slot, erases its flow if the slot has the key of a
-- blocked flow that is not the one remembered, and puts the key behind all others.
-- `evict_oldest_blocked` returns true, drops the first slot that has the key of a blocked flow, not 0,
-- with all older slots, puts as many free slots behind the others, and erases that flow and no other;
-- or it returns false, erases none, and no flow with a key other than 0 is blocked.
pub Reached-IsFifo {ℓ} :
    {R : Type ℓ} (r : Reassembler R) (policy : Option Bytes → Verdict) (reassembly : R)
    (max_flows max_blocked : ℕ) (pkts : List Packet) (e : Extractor R) (key : ℕ)
    → Reached r policy (new_extractor reassembly max_flows max_blocked) pkts e
    → IsFifo key e
unfolding evict_oldest_blocked
Reached-IsFifo r policy reassembly max_flows max_blocked pkts e key way =
    let s =
      Reached-IsSound r policy (new_extractor-IsSound r policy reassembly max_flows max_blocked)
        way in
    let len = s.remembered.ring_length in
    let inside = s.remembered.next_inside in
    record {
      remembers = remember_blocked-queue key e len inside;
      forgets = remember_blocked-forgets key e;
      gives_up =
          elim (evict_oldest_blocked-cases r policy reassembly max_flows max_blocked pkts e way) [
            | inl (hit, one) ↦ inl (hit, evict-Evicts e.max_blocked e len inside hit)
            | inr none_left ↦ inr none_left
          ];
    }
