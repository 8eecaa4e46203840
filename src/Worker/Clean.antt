-- ===== src/Worker/Clean.antt =====
-- What holds of a worker, of src/worker.cpp, between two of its steps: why each packet that it has had
-- dropped was dropped.
use packet_inspector.Base.{
  ℕ, ◌≡◌, refl, subst, inl, inr, Bool, not, List, [], ◌∷◌, ◌++◌, Bool-cases, All, All-append,
}
use packet_inspector.Packet.{Packet, Verdict, block, move_packet}
use packet_inspector.BlockList.{BlockList}
use packet_inspector.Extractor.State.{Decided, Reassembler, Extractor}
use packet_inspector.Extractor.Reached.{Step, IsSound, Step-IsSound}
use packet_inspector.Extractor.Justified.{IsCondemned, AllCondemned}
use packet_inspector.Extractor.Justified.Fed.{In, IsFed, IsHeard, IsAllJust, Step-IsAllJust}
use packet_inspector.Worker.{Queue, Arrival, Worker, policy, arrived_packet, submit, submit_all}

-- The packets that the worker has the extractor inspect, unless it lets all through.
abbrev pub fed_by : List Arrival → List Packet
fed_by [] = []
fed_by (a ∷ arrivals) = (move_packet (arrived_packet a)).0 ∷ fed_by arrivals

abbrev pub fed_in : List (List Arrival × ℕ) → List Packet
fed_in [] = []
fed_in ((arrivals, now) ∷ turns) = fed_by arrivals ++ fed_in turns

module _ {ℓ} {R : Type ℓ} (takes : List (ℕ × Verdict) → Bool) (r : Reassembler R) (b : BlockList)
    (pkts : List Packet) where
  abbrev pub IsDue : ℕ → Type ℓ
  IsDue id = IsCondemned (policy b) (IsHeard r pkts) (IsFed pkts) id

  -- Every packet that has been answered with BLOCK was due to be.
  abbrev pub AllDue : List (ℕ × Verdict) → Type ℓ
  AllDue answered = All (λ answer. answer.1 ≡ block → IsDue answer.0) answered

  pub record IsClean (size room : ℕ) (w : Worker R) : Type ℓ where
    pub same_list : w.blocklist ≡ b
    pub sound : IsSound r (policy b) size room w.tls
    pub just : IsAllJust r (policy b) pkts w.tls
    pub answers : AllDue w.queue.answered

  pub submit-AllDue :
      (pkt : Packet) (v : Verdict) (q : Queue)
      → (v ≡ block → IsDue pkt.id)
      → AllDue q.answered
      → AllDue (submit takes pkt v q).1.answered
  unfolding submit
  submit-AllDue pkt v q due all = elim (Bool-cases (not pkt.pending)) [
    | inl done ↦ rw done all
    | inr owed ↦ rw owed (
        All-append (λ answer. answer.1 ≡ block → IsDue answer.0) q.answered ((pkt.id, v) ∷ []) all
          (due, tt))
  ]

  pub submit_all-AllDue :
      (ds : List Decided) (q : Queue)
      → AllCondemned (policy b) (IsHeard r pkts) (IsFed pkts) ds
      → AllDue q.answered
      → AllDue (submit_all takes ds q).answered
  unfolding submit_all
  submit_all-AllDue [] q due all = all
  submit_all-AllDue (d ∷ ds) q due all =
      submit_all-AllDue ds (submit takes d.pkt d.verdict q).1 due.1
        (submit-AllDue d.pkt d.verdict q due.0 all)

  -- A call of the extractor.
  pub Step-IsClean :
      {size room : ℕ} (new : List Packet) (w : Worker R) (e : Extractor R)
      → All (λ pkt. In pkt pkts) new
      → Step r (policy w.blocklist) new w.tls e
      → IsClean size room w
      → IsClean size room (record w { tls = e })
  unfolding policy
  Step-IsClean new w e members st p =
      let step = subst (λ c. Step r (policy c) new w.tls e) p.same_list st in
      record {
        same_list = p.same_list;
        sound = Step-IsSound r (policy b) step p.sound;
        just = Step-IsAllJust r (policy b) pkts refl members step p.sound.tidy p.just;
        answers = p.answers;
      }

  pub queue-IsClean :
      {size room : ℕ} (w : Worker R) (q : Queue)
      → AllDue q.answered
      → IsClean size room w
      → IsClean size room (record w { queue = q })
  queue-IsClean w q all p = record {
    same_list = p.same_list;
    sound = p.sound;
    just = p.just;
    answers = all;
  }
