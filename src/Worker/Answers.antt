-- ===== src/Worker/Answers.antt =====
-- The verdicts that a worker gives, counted by the id of the packet.
use packet_inspector.Base.{
  ℕ, ◌+◌, ◌%◌, ◌^◌, ◌≡◌, refl, ◌∙◌, inl, inr, Bool, false, List, [], ◌∷◌, ◌++◌, arith, ◌==◌,
  if◌then◌else◌, Bool-cases,
}
use packet_inspector.Packet.{Packet, Verdict, allow, move_packet}
use packet_inspector.Extractor.State.{Decided, Reassembler}
use packet_inspector.Extractor.Feed.{tick, flush}
use packet_inspector.Extractor.Conserve.Tables.{has_id, count_decided, times, IsTidy}
use packet_inspector.Extractor.Conserve.Feed.{feed-keeps_packets, tick-keeps_packets}
use packet_inspector.Extractor.Conserve.Flush.{flush-decides_all}
use packet_inspector.Worker.{
  Queue, Arrival, Worker, policy, arrived_packet, let_through, inspect, submit, submit_all,
  on_packet, handle, handle_all, drain_decided, turn, finish, loop,
}

-- How many verdicts the kernel has been given for the packet `i`.
abbrev pub count_answers : ℕ → List (ℕ × Verdict) → ℕ
count_answers i [] = 0
count_answers i ((j, v) ∷ rest) = (if j == i then 1 else 0) + count_answers i rest

-- How many of the packets have the id `i`.
abbrev pub count_arrivals : ℕ → List Arrival → ℕ
count_arrivals i [] = 0
count_arrivals i (a ∷ rest) = has_id i (arrived_packet a) + count_arrivals i rest

abbrev pub count_turns : ℕ → List (List Arrival × ℕ) → ℕ
count_turns i [] = 0
count_turns i ((arrivals, now) ∷ turns) = count_arrivals i arrivals + count_turns i turns

-- The packets that the worker has answered for, is about to, or holds.
abbrev total {ℓ} : {R : Type ℓ} → ℕ → Worker R → ℕ
total i w = times i w.tls + count_answers i w.queue.answered

count_answers-append :
    (i : ℕ) (xs ys : List (ℕ × Verdict))
    → count_answers i (xs ++ ys) ≡ count_answers i xs + count_answers i ys
count_answers-append i [] ys = omega arith
count_answers-append i ((j, v) ∷ xs) ys = omega (arith, count_answers-append i xs ys)

module _ (takes : List (ℕ × Verdict) → Bool) (i : ℕ) where
  submit-answers :
      (pkt : Packet) (v : Verdict) (q : Queue)
      → (count_answers i (submit takes pkt v q).1.answered
          ≡ has_id i pkt + count_answers i q.answered)
        × ((submit takes pkt v q).0.pending ≡ false)
        × ((submit takes pkt v q).1.undecided ≡ q.undecided)
  unfolding submit
  submit-answers pkt v q = elim (Bool-cases pkt.pending) [
    | inl owed ↦
        rw owed (ground (arith, count_answers-append i q.answered ((pkt.id, v) ∷ [])), refl, refl)
    | inr done ↦ rw done (omega arith, refl, refl)
  ]

  submit_all-answers :
      (ds : List Decided) (q : Queue)
      → (count_answers i (submit_all takes ds q).answered
          ≡ count_decided i ds + count_answers i q.answered)
        × ((submit_all takes ds q).undecided ≡ q.undecided)
  unfolding submit_all
  submit_all-answers [] q = (omega arith, refl)
  submit_all-answers (d ∷ ds) q =
      let (first, _, safe) = submit-answers d.pkt d.verdict q in
      let (others, safe') = submit_all-answers ds (submit takes d.pkt d.verdict q).1 in
      (omega (arith, first, others), safe' ∙ safe)

module _ {ℓ} {R : Type ℓ} (takes : List (ℕ × Verdict) → Bool) (r : Reassembler R) (i : ℕ) where
  -- One step of a worker that brings the packet `i` in `n` times and never needs the fail-safe.
  record Answers (n : ℕ) (w w' : Worker R) : Type 0 where
    tidy : IsTidy w'.tls.conns
    total_is : total i w' ≡ n + total i w
    failsafe : w'.queue.undecided ≡ w.queue.undecided

  on_packet-Answers :
      (now : ℕ) (pkt : Packet) (w : Worker R)
      → IsTidy w.tls.conns
      → ((on_packet takes r now pkt w).0.pending ≡ false)
        × Answers (has_id i pkt) w (on_packet takes r now pkt w).1
  unfolding on_packet let_through inspect move_packet
  on_packet-Answers now pkt w t = elim (Bool-cases w.passthrough) [
    | inl through ↦
        let (answers, left, safe) = submit-answers takes i pkt allow w.queue in
        rw (through, on_packet)
          (left, record { tidy = t; total_is = omega (arith, answers); failsafe = safe })
    | inr inspects ↦
        let (fed, tidy) = feed-keeps_packets r (policy w.blocklist) i now pkt w.tls t in
        rw (inspects, on_packet)
          (refl, record { tidy = tidy; total_is = omega (arith, fed); failsafe = refl })
  ]

  handle-Answers :
      (a : Arrival) (w : Worker R)
      → IsTidy w.tls.conns
      → Answers (has_id i (arrived_packet a)) w (handle takes r a w)
  unfolding handle
  handle-Answers a w t =
      let counted = record w.queue { received = (w.queue.received + 1) % 2 ^ 64 } in
      let received = record w { queue = counted } in
      let (left, k) = on_packet-Answers a.now (arrived_packet a) received t in
      rw left (record { tidy = k.tidy; total_is = k.total_is; failsafe = k.failsafe })

  handle_all-Answers :
      (arrivals : List Arrival) (w : Worker R)
      → IsTidy w.tls.conns
      → Answers (count_arrivals i arrivals) w (handle_all takes r arrivals w)
  unfolding handle_all
  handle_all-Answers [] w t = record { tidy = t; total_is = omega arith; failsafe = refl }
  handle_all-Answers (a ∷ rest) w t =
      let h = handle-Answers a w t in
      let k = handle_all-Answers rest (handle takes r a w) h.tidy in
      record {
        tidy = k.tidy;
        total_is = omega (arith, h.total_is, k.total_is);
        failsafe = k.failsafe ∙ h.failsafe;
      }

  Answers-then : {n m : ℕ} (e f g : Worker R) → Answers n e f → Answers m f g → Answers (n + m) e g
  Answers-then e f g h k = record {
    tidy = k.tidy;
    total_is = omega (arith, h.total_is, k.total_is);
    failsafe = k.failsafe ∙ h.failsafe;
  }

  drain_decided-Answers :
      (w : Worker R) → IsTidy w.tls.conns → Answers 0 w (drain_decided takes r w)
  unfolding drain_decided
  drain_decided-Answers w t =
      let (answers, safe) = submit_all-answers takes i w.tls.decided w.queue in
      record { tidy = t; total_is = omega (arith, answers); failsafe = safe }

  turn-Answers :
      (arrivals : List Arrival) (now : ℕ) (w : Worker R)
      → IsTidy w.tls.conns
      → Answers (count_arrivals i arrivals) w (turn takes r arrivals now w)
  unfolding turn
  turn-Answers arrivals now w t =
      let h = handle_all-Answers arrivals w t in
      let handled = handle_all takes r arrivals w in
      let (ticked, _, tidy) =
        tick-keeps_packets r (policy handled.blocklist) i now handled.tls h.tidy in
      let swept = record handled { tls = tick r (policy handled.blocklist) now handled.tls } in
      let d = drain_decided-Answers swept tidy in
      record {
        tidy = d.tidy;
        total_is = omega (arith, h.total_is, ticked, d.total_is);
        failsafe = d.failsafe ∙ h.failsafe;
      }

  -- For a worker in whose table blocked flows hold nothing and no key stands twice, whatever arrives:
  -- when the loop has ended, the verdicts given for the id `i` are as many as were given before, as
  -- packets of that id were held or decided, and as have arrived; no flow and no decided packet is left,
  -- and the count of packets that the callback dropped undecided is the same.
  pub loop-answers_all :
      (turns : List (List Arrival × ℕ)) (w : Worker R)
      → IsTidy w.tls.conns
      → (count_answers i (loop takes r turns w).queue.answered
          ≡ count_turns i turns + (times i w.tls + count_answers i w.queue.answered))
        × ((loop takes r turns w).tls.conns ≡ [])
        × ((loop takes r turns w).tls.decided ≡ [])
        × ((loop takes r turns w).queue.undecided ≡ w.queue.undecided)
  unfolding loop finish drain_decided
  loop-answers_all [] w t =
      let (decided, gone) = flush-decides_all r (policy w.blocklist) i w.tls t in
      let flushed = flush r (policy w.blocklist) w.tls in
      let (answers, safe) = submit_all-answers takes i flushed.decided w.queue in
      (omega (arith, decided, answers), gone, refl, safe)
  loop-answers_all ((arrivals, now) ∷ turns) w t =
      let k = turn-Answers arrivals now w t in
      let (answers, gone, drained, safe) =
        loop-answers_all turns (turn takes r arrivals now w) k.tidy in
      (omega (arith, answers, k.total_is), gone, drained, safe ∙ k.failsafe)
