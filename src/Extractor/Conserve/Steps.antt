-- ===== src/Extractor/Conserve/Steps.antt =====
-- The packets under the steps on the decided buffer and the ring of blocked flows.
use packet_inspector.Base.{
  ℕ, zero, suc, ◌+◌, ◌≤◌, ◌≡◌, refl, ap, ◌∙◌, inl, inr, true, not, ◌&&◌, none, some, List, [], ◌∷◌,
  arith, ◌==◌, Bool-cases, Option-cases, length, get_or,
}
use packet_inspector.Packet.{Packet, Verdict}
use packet_inspector.Extractor.Table.{find, erase, update}
use packet_inspector.Extractor.State.{blocking, Conn, Extractor, is_blocking}
use packet_inspector.Extractor.Ring.{
  publish, park, park_all, forget_blocked, take_slot, remember_blocked, evict, evict_oldest_blocked,
}
use packet_inspector.Extractor.Conserve.Tables.{
  has_id, count_packets, times, IsTidyConn, IsTidy, count_decided-append, count_held-erase,
  count_held-update, length-erase-le, length-update, find-erase-none, find-update-none,
  erase-IsTidy, update-IsTidy, find-IsTidy,
}

-- From `e` to `e'` the packet `i` has come in `plus` times, and no flow has been added.
pub record Kept {ℓ} {R : Type ℓ} (i plus : ℕ) (e e' : Extractor R) : Type 0 where
  pub tidy : IsTidy e'.conns
  pub times_are : times i e' ≡ plus + times i e
  pub no_more : length e'.conns ≤ length e.conns
  pub same_cap : e'.max_flows ≡ e.max_flows
  pub still_new : (k : ℕ) → find k e.conns ≡ none → find k e'.conns ≡ none

module _ {ℓ} {R : Type ℓ} (i : ℕ) where
  pub Kept-refl : (e : Extractor R) → IsTidy e.conns → Kept i 0 e e
  Kept-refl e t = record {
    tidy = t;
    times_are = omega arith;
    no_more = omega arith;
    same_cap = refl;
    still_new = λ j n. n;
  }

  pub Kept-then : {n : ℕ} (e f g : Extractor R) → Kept i 0 e f → Kept i n f g → Kept i n e g
  Kept-then e f g h k = record {
    tidy = k.tidy;
    times_are = omega (arith, h.times_are, k.times_are);
    no_more = omega (arith, h.no_more, k.no_more);
    same_cap = k.same_cap ∙ h.same_cap;
    still_new = λ j n. k.still_new j (h.still_new j n);
  }

  pub then-Kept : {n : ℕ} (e f g : Extractor R) → Kept i n e f → Kept i 0 f g → Kept i n e g
  then-Kept e f g h k = record {
    tidy = k.tidy;
    times_are = omega (arith, h.times_are, k.times_are);
    no_more = omega (arith, h.no_more, k.no_more);
    same_cap = k.same_cap ∙ h.same_cap;
    still_new = λ j n. k.still_new j (h.still_new j n);
  }

  pub park-Kept :
      (pkt : Packet) (v : Verdict) (e : Extractor R)
      → IsTidy e.conns
      → Kept i (has_id i pkt) e (park pkt v e)
  unfolding park
  park-Kept pkt v e t = record {
    tidy = t;
    times_are =
        omega (arith, count_decided-append i e.decided (record { pkt = pkt; verdict = v } ∷ []));
    no_more = omega arith;
    same_cap = refl;
    still_new = λ j n. n;
  }

  pub park_all-Kept :
      (pkts : List Packet) (v : Verdict) (e : Extractor R)
      → IsTidy e.conns
      → Kept i (count_packets i pkts) e (park_all pkts v e)
  unfolding park_all
  park_all-Kept [] v e t = Kept-refl e t
  park_all-Kept (pkt ∷ pkts) v e t =
      let h = park-Kept pkt v e t in
      let k = park_all-Kept pkts v (park pkt v e) h.tidy in
      record {
        tidy = k.tidy;
        times_are = omega (arith, h.times_are, k.times_are);
        no_more = omega (arith, h.no_more, k.no_more);
        same_cap = k.same_cap ∙ h.same_cap;
        still_new = λ j n. k.still_new j (h.still_new j n);
      }

  pub publish-Kept : (e f : Extractor R) {n : ℕ} → Kept i n e f → Kept i n e (publish f)
  unfolding publish
  publish-Kept e f k = record {
    tidy = k.tidy;
    times_are = k.times_are;
    no_more = k.no_more;
    same_cap = k.same_cap;
    still_new = k.still_new;
  }

  -- A blocked flow holds nothing, so it can be forgotten.
  pub erase-Kept :
      (key : ℕ) (c : Conn) (e : Extractor R)
      → IsTidy e.conns
      → find key e.conns ≡ some c
      → c.held ≡ []
      → Kept i 0 e (record e { conns = erase key e.conns })
  erase-Kept key c e t there empty = record {
    tidy = erase-IsTidy key e.conns t;
    times_are = omega (arith, count_held-erase i key e.conns there, ap (count_packets i) empty);
    no_more = length-erase-le key e.conns;
    same_cap = refl;
    still_new = λ j n. find-erase-none j key e.conns n;
  }

  -- A write to a flow's entry that keeps what it holds.
  pub update-Kept :
      (key : ℕ) (c w : Conn) (e : Extractor R)
      → IsTidy e.conns
      → find key e.conns ≡ some c
      → IsTidyConn w
      → w.held ≡ c.held
      → Kept i 0 e (record e { conns = update key w e.conns })
  update-Kept key c w e t there tidy same = record {
    tidy = update-IsTidy key w e.conns tidy t;
    times_are = omega (arith, count_held-update i key w e.conns there, ap (count_packets i) same);
    no_more = omega (arith, length-update key w e.conns);
    same_cap = refl;
    still_new = λ j n. find-update-none j key w e.conns n;
  }

  blocked_entry :
      (key : ℕ) (e : Extractor R)
      → IsTidy e.conns
      → is_blocking (find key e.conns) ≡ true
      → (c : Conn) × (find key e.conns ≡ some c) × (c.held ≡ [])
  blocked_entry key e t h = elim (Option-cases (find key e.conns)) [
    | inl missing ↦ cc (rw missing at h)
    | inr (c, there) ↦ (c, there, find-IsTidy key e.conns there t (is_blocked c (rw there at h)))
  ]
    where
      is_blocked : (c : Conn) → is_blocking (some c) ≡ true → c.state ≡ blocking
      is_blocked c b = ground arith

  pub forget_blocked-Kept :
      (key : ℕ) (e : Extractor R) → IsTidy e.conns → Kept i 0 e (forget_blocked key e)
  unfolding forget_blocked
  forget_blocked-Kept key e t = elim (Bool-cases (is_blocking (find key e.conns))) [
    | inl blocked ↦
        let (c, there, empty) = blocked_entry key e t blocked in
        rw blocked (publish-Kept e _ (erase-Kept key c e t there empty))
    | inr other ↦ rw other (Kept-refl e t)
  ]

  take_slot-Kept :
      (key : ℕ) (e f : Extractor R) {n : ℕ} → Kept i n e f → Kept i n e (take_slot key f)
  take_slot-Kept key e f k = record {
    tidy = k.tidy;
    times_are = k.times_are;
    no_more = k.no_more;
    same_cap = k.same_cap;
    still_new = k.still_new;
  }

  pub remember_blocked-Kept :
      (key : ℕ) (e : Extractor R) → IsTidy e.conns → Kept i 0 e (remember_blocked key e)
  unfolding remember_blocked
  remember_blocked-Kept key e t =
      let victim = get_or e.block_ring e.block_next 0 in
      elim (Bool-cases (not (victim == 0) && not (victim == key))) [
        | inl other ↦ rw other (take_slot-Kept key e _ (forget_blocked-Kept victim e t))
        | inr own ↦ rw own (take_slot-Kept key e e (Kept-refl e t))
      ]

  evict-Kept : (tries : ℕ) (e : Extractor R) → IsTidy e.conns → Kept i 0 e (evict tries e).0
  unfolding evict
  evict-Kept zero e t = Kept-refl e t
  evict-Kept (suc tries) e t =
      let victim = get_or e.block_ring e.block_next 0 in
      let freed = take_slot 0 e in
      elim (Bool-cases (not (victim == 0) && is_blocking (find victim e.conns))) [
        | inl blocked ↦
            let (c, there, empty) = blocked_entry victim e t (ground arith) in
            rw (blocked, evict)
              (publish-Kept e _ (take_slot-Kept 0 e _ (erase-Kept victim c e t there empty)))
        | inr other ↦
            rw (other, evict)
              (Kept-then e freed _ (take_slot-Kept 0 e e (Kept-refl e t))
                (evict-Kept tries freed t))
      ]

  pub evict_oldest_blocked-Kept :
      (e : Extractor R) → IsTidy e.conns → Kept i 0 e (evict_oldest_blocked e).0
  unfolding evict_oldest_blocked
  evict_oldest_blocked-Kept e t = evict-Kept e.max_blocked e t
