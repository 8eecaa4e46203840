-- ===== src/Extractor/Justified/Log.antt =====
-- The verdicts and the packet in the reassembler, where flows are forgotten.
use packet_inspector.Base.{
  ℕ, zero, suc, ◌≡◌, refl, ◌∙◌, inl, inr, not, ◌&&◌, Option, none, some, ◌==◌, Bool-cases, get_or,
}
use packet_inspector.Extractor.Table.{find}
use packet_inspector.Extractor.State.{Extractor, is_blocking}
use packet_inspector.Extractor.Ring.{publish, forget_blocked, take_slot, remember_blocked, evict}
use packet_inspector.Extractor.Conserve.Tables.{IsTidy}
use packet_inspector.Extractor.Conserve.Settle.{Shrinks, find-erase-some}
use packet_inspector.Extractor.Stable.{core}
use packet_inspector.Extractor.Justified.{IsMode}

-- The verdicts and the packet that is being fed are the same.
pub record IsSameLog {ℓ} {R : Type ℓ} (e f : Extractor R) : Type 0 where
  pub same_decided : f.decided ≡ e.decided
  pub same_key : f.current_key ≡ e.current_key
  pub same_feeding : f.feeding ≡ e.feeding

module _ {ℓ} {R : Type ℓ} where
  forget_blocked-IsSameLog : (victim : ℕ) (e : Extractor R) → IsSameLog e (forget_blocked victim e)
  unfolding forget_blocked publish
  forget_blocked-IsSameLog victim e = elim (Bool-cases (is_blocking (find victim e.conns))) [
    | inl blocked ↦
        rw blocked (record { same_decided = refl; same_key = refl; same_feeding = refl })
    | inr other ↦ rw other (record { same_decided = refl; same_key = refl; same_feeding = refl })
  ]

  pub remember_blocked-IsSameLog :
      (key : ℕ) (e : Extractor R) → IsSameLog e (remember_blocked key e)
  unfolding remember_blocked
  remember_blocked-IsSameLog key e =
      let victim = get_or e.block_ring e.block_next 0 in
      let s = forget_blocked-IsSameLog victim e in
      elim (Bool-cases (not (victim == 0) && not (victim == key))) [
        | inl other ↦ rw other (record {
          same_decided = s.same_decided;
          same_key = s.same_key;
          same_feeding = s.same_feeding;
        })
        | inr own ↦ rw own (record { same_decided = refl; same_key = refl; same_feeding = refl })
      ]

  pub evict-IsSameLog : (tries : ℕ) (e : Extractor R) → IsSameLog e (evict tries e).0
  unfolding evict publish
  evict-IsSameLog zero e = record { same_decided = refl; same_key = refl; same_feeding = refl }
  evict-IsSameLog (suc tries) e =
      let victim = get_or e.block_ring e.block_next 0 in
      elim (Bool-cases (not (victim == 0) && is_blocking (find victim e.conns))) [
        | inl hit ↦
            rw (hit, evict) (record { same_decided = refl; same_key = refl; same_feeding = refl })
        | inr free ↦
            rw (free, evict)
              (let s = evict-IsSameLog tries (take_slot 0 e) in
                record {
                  same_decided = s.same_decided;
                  same_key = s.same_key;
                  same_feeding = s.same_feeding;
                })
      ]

  pub evict-Shrinks :
      (tries : ℕ) (e : Extractor R) → IsTidy e.conns → Shrinks e.conns (evict tries e).0.conns
  unfolding evict publish
  evict-Shrinks zero e t k c h = h
  evict-Shrinks (suc tries) e t k c h =
      let victim = get_or e.block_ring e.block_next 0 in
      elim (Bool-cases (not (victim == 0) && is_blocking (find victim e.conns))) [
        | inl hit ↦ find-erase-some k victim e.conns t (rw (hit, evict) at h)
        | inr free ↦ evict-Shrinks tries (take_slot 0 e) t k c (rw (free, evict) at h)
      ]

  pub same-IsMode :
      (m : Option ℕ) (e f : Extractor R)
      → f.current_key ≡ e.current_key
      → f.feeding ≡ e.feeding
      → IsMode m (core e)
      → IsMode m (core f)
  same-IsMode none e f key feeding is = feeding ∙ is
  same-IsMode (some k) e f key feeding is = key ∙ is
