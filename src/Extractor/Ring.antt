-- ===== src/Extractor/Ring.antt =====
-- The buffer of decided packets and the ring of blocked flows: `decide`, `publish`, `remember_blocked`
-- and `evict_oldest_blocked` of src/hostname_extractor.cpp.
use packet_inspector.Base.{
  ℕ, zero, suc, ◌+◌, ◌%◌, Bool, true, false, not, ◌&&◌, List, [], ◌∷◌, ◌++◌, ◌==◌, if◌then◌else◌,
  length, get_or, set,
}
use packet_inspector.Packet.{Verdict, Packet}
use packet_inspector.Extractor.Table.{find, erase}
use packet_inspector.Extractor.State.{Extractor, is_blocking}

module _ {ℓ} {R : Type ℓ} where
  unfoldable pub publish : Extractor R → Extractor R
  publish e = record e { flows = length e.conns }

  -- `decide`
  unfoldable pub park : Packet → Verdict → Extractor R → Extractor R
  park pkt v e = record e { decided = e.decided ++ (record { pkt = pkt; verdict = v } ∷ []) }

  unfoldable pub park_all : List Packet → Verdict → Extractor R → Extractor R
  park_all [] v e = e
  park_all (pkt ∷ pkts) v e = park_all pkts v (park pkt v e)

  -- Forget the flow, if it is (still) a blocked one.
  unfoldable pub forget_blocked : ℕ → Extractor R → Extractor R
  forget_blocked victim e =
      if is_blocking (find victim e.conns)
      then publish (record e { conns = erase victim e.conns })
      else e

  abbrev pub take_slot : ℕ → Extractor R → Extractor R
  take_slot key e = record e {
    block_ring = set e.block_ring e.block_next key;
    block_next = (e.block_next + 1) % e.max_blocked;
  }

  unfoldable pub remember_blocked : ℕ → Extractor R → Extractor R
  remember_blocked key e =
      let victim = get_or e.block_ring e.block_next 0 in
      take_slot key
        (if not (victim == 0) && not (victim == key) then forget_blocked victim e else e)

  -- The loop of `evict_oldest_blocked`, over the tries that are left.
  unfoldable pub evict : ℕ → Extractor R → Extractor R × Bool
  evict zero e = (e, false)
  evict (suc tries) e =
      let victim = get_or e.block_ring e.block_next 0 in
      let freed = take_slot 0 e in
      elim (not (victim == 0) && is_blocking (find victim e.conns)) [
        | true ↦ (publish (record freed { conns = erase victim e.conns }), true)
        | false ↦ evict tries freed
      ]

  unfoldable pub evict_oldest_blocked : Extractor R → Extractor R × Bool
  evict_oldest_blocked e = evict e.max_blocked e
