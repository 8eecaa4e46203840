-- ===== src/Program/Counted.antt =====
-- What the counters of include/NFQueue.hpp and include/hostname_extractor.hpp show of a worker that has
-- stopped, which the last line of src/main.cpp prints.
use packet_inspector.Base.{
  ℕ, ◌+◌, ◌%◌, ◌^◌, ◌≡◌, refl, inl, inr, Bool, true, List, [], ◌∷◌, ◌++◌, arith, Bool-cases, length,
  length-append,
}
use packet_inspector.Packet.{Packet, Verdict, allow}
use packet_inspector.BlockList.{BlockList}
use packet_inspector.Extractor.State.{Decided, Reassembler, new_extractor}
use packet_inspector.Extractor.Ring.{publish}
use packet_inspector.Extractor.Feed.{tick, flush}
use packet_inspector.Worker.{
  Queue, Arrival, Worker, new_worker, policy, arrived_packet, submit, submit_all, let_through,
  inspect, on_packet, answer_for, handle, handle_all, drain_decided, turn, finish, loop,
}
use packet_inspector.Worker.Answers.{loop-answers_all}
use packet_inspector.Worker.Ids.{arrived, answered-arrived}
use packet_inspector.Program.{Counters, counters_of, outstanding}

-- The counters of a queue that has had `n` packets, if the kernel took every verdict.
record IsTallied (n : ℕ) (q : Queue) : Type 0 where
  had : q.received ≡ n % 2 ^ 64
  gave : q.verdicted ≡ length q.answered % 2 ^ 64

-- The counters of a worker that has had `n` packets and owes no verdict.
pub record IsSettled (n : ℕ) (c : Counters) : Type 0 where
  pub all_received : c.received ≡ n % 2 ^ 64
  pub all_verdicted : c.verdicted ≡ n % 2 ^ 64
  pub none_outstanding : outstanding c ≡ 0
  pub none_tracked : c.flows ≡ 0
  pub none_undecided : c.undecided ≡ 0

module _ {ℓ} {R : Type ℓ} (takes : List (ℕ × Verdict) → Bool) (r : Reassembler R)
    (all : (calls : List (ℕ × Verdict)) → takes calls ≡ true) where
  submit-IsTallied :
      (n : ℕ) (pkt : Packet) (v : Verdict) (q : Queue)
      → IsTallied n q
      → IsTallied n (submit takes pkt v q).1
  unfolding submit
  submit-IsTallied n pkt v q t = elim (Bool-cases pkt.pending) [
    | inl owed ↦
        rw (owed, all (q.answered ++ (pkt.id, v) ∷ []))
          (record {
            had = t.had;
            gave = omega (arith, t.gave, length-append q.answered ((pkt.id, v) ∷ []));
          })
    | inr done ↦ rw done t
  ]

  submit_all-IsTallied :
      (n : ℕ) (ds : List Decided) (q : Queue) → IsTallied n q → IsTallied n (submit_all takes ds q)
  unfolding submit_all
  submit_all-IsTallied n [] q t = t
  submit_all-IsTallied n (d ∷ ds) q t =
      submit_all-IsTallied n ds _ (submit-IsTallied n d.pkt d.verdict q t)

  on_packet-IsTallied :
      (n now : ℕ) (pkt : Packet) (w : Worker R)
      → IsTallied n w.queue
      → IsTallied n (on_packet takes r now pkt w).1.queue
  unfolding on_packet let_through inspect
  on_packet-IsTallied n now pkt w t = elim (Bool-cases w.passthrough) [
    | inl through ↦ rw (through, on_packet) (submit-IsTallied n pkt allow w.queue t)
    | inr inspects ↦ rw (inspects, on_packet) t
  ]

  handle-IsTallied :
      (n : ℕ) (a : Arrival) (w : Worker R)
      → IsTallied n w.queue
      → IsTallied (n + 1) (handle takes r a w).queue
  unfolding handle answer_for
  handle-IsTallied n a w t =
      let counted = record w.queue { received = (w.queue.received + 1) % 2 ^ 64 } in
      let met = record w { queue = counted } in
      let next : IsTallied (n + 1) counted = record { had = omega (arith, t.had); gave = t.gave } in
      let called = on_packet takes r a.now (arrived_packet a) met in
      let after = on_packet-IsTallied (n + 1) a.now (arrived_packet a) met next in
      elim (Bool-cases called.0.pending) [
        | inl left ↦ rw left (
            submit-IsTallied (n + 1) called.0 allow _
              (record { had = after.had; gave = after.gave }))
        | inr taken ↦ rw taken after
      ]

  handle_all-IsTallied :
      (n : ℕ) (arrivals : List Arrival) (w : Worker R)
      → IsTallied n w.queue
      → IsTallied (n + length arrivals) (handle_all takes r arrivals w).queue
  unfolding handle_all
  handle_all-IsTallied n [] w t = record { had = omega (arith, t.had); gave = t.gave }
  handle_all-IsTallied n (a ∷ rest) w t =
      let k = handle_all-IsTallied (n + 1) rest (handle takes r a w) (handle-IsTallied n a w t) in
      record { had = omega (arith, k.had); gave = k.gave }

  loop-IsTallied :
      (n : ℕ) (turns : List (List Arrival × ℕ)) (w : Worker R)
      → IsTallied n w.queue
      → IsTallied (n + arrived turns) (loop takes r turns w).queue
  unfolding loop finish turn drain_decided
  loop-IsTallied n [] w t =
      let k = submit_all-IsTallied n (flush r (policy w.blocklist) w.tls).decided w.queue t in
      record { had = omega (arith, k.had); gave = k.gave }
  loop-IsTallied n ((arrivals, now) ∷ turns) w t =
      let handled = handle_all takes r arrivals w in
      let ticked = tick r (policy handled.blocklist) now handled.tls in
      let k = loop-IsTallied (n + length arrivals) turns (turn takes r arrivals now w) (
        submit_all-IsTallied (n + length arrivals) ticked.decided handled.queue
          (handle_all-IsTallied n arrivals w t)) in
      record { had = omega (arith, k.had); gave = k.gave }

  finish-flows :
      (turns : List (List Arrival × ℕ)) (w : Worker R)
      → (loop takes r turns w).tls.flows ≡ length (loop takes r turns w).tls.conns
  unfolding loop finish drain_decided flush publish
  finish-flows [] w = refl
  finish-flows ((arrivals, now) ∷ turns) w = finish-flows turns (turn takes r arrivals now w)

  -- If the kernel takes every verdict: when the loop of a new worker has ended, its counters show as
  -- many packets received and as many verdicts as packets have arrived, modulo 2^64, none outstanding,
  -- no tracked flow and no packet that the callback dropped undecided.
  pub loop-IsSettled :
      (passthrough : Bool) (b : BlockList) (reassembly : R) (max_flows max_blocked : ℕ)
      (turns : List (List Arrival × ℕ))
      → IsSettled (arrived turns) (
          counters_of
            (loop takes r turns (new_worker passthrough b reassembly max_flows max_blocked)))
  unfolding new_worker new_extractor outstanding
  loop-IsSettled passthrough b reassembly max_flows max_blocked turns =
      let w = new_worker passthrough b reassembly max_flows max_blocked in
      let end = loop takes r turns w in
      let k = loop-IsTallied 0 turns w (record { had = refl; gave = refl }) in
      let a = loop-answers_all takes r 0 turns w tt in
      let each =
        answered-arrived end.queue.answered turns
          (λ i. let n = (loop-answers_all takes r i turns w tt).0 in omega (arith, n)) in
      let bare = a.1 in
      record {
        all_received = omega (arith, k.had);
        all_verdicted = omega (arith, k.gave, each);
        none_outstanding = omega (arith, k.had, k.gave, each);
        none_tracked = rw bare at (finish-flows turns w);
        none_undecided = a.3;
      }
