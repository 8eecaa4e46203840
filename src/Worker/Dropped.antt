-- ===== src/Worker/Dropped.antt =====
-- The packets that the worker's loop, of src/worker.cpp and src/NFQueue.cpp, has the kernel drop.
use packet_inspector.Base.{
  ℕ, ◌+◌, ◌%◌, ◌^◌, refl, inl, inr, Bool, true, false, List, [], ◌∷◌, arith, if◌then◌else◌,
  Bool-cases, All,
}
use packet_inspector.Packet.{Packet, Verdict, allow, move_packet}
use packet_inspector.BlockList.{BlockList}
use packet_inspector.Extractor.State.{Reassembler}
use packet_inspector.Extractor.Feed.{feed, tick, flush}
use packet_inspector.Extractor.Reached.{feeds, ticks, flushes, hands_over, new_extractor-IsSound}
use packet_inspector.Extractor.Justified.Fed.{
  In, All-of, All-append_left, All-append_right, new_extractor-IsAllJust,
}
use packet_inspector.Worker.{
  new_worker, Arrival, Worker, policy, arrived_packet, submit, submit_all, let_through, inspect,
  on_packet, answer_for, handle, handle_all, drain_decided, turn, finish, loop,
}
use packet_inspector.Worker.Clean.{
  fed_by, fed_in, AllDue, IsClean, submit-AllDue, submit_all-AllDue, Step-IsClean, queue-IsClean,
}

module _ {ℓ} {R : Type ℓ} (takes : List (ℕ × Verdict) → Bool) (r : Reassembler R) (b : BlockList)
    (pkts : List Packet) where
  let_through-IsClean :
      {size room : ℕ} (pkt : Packet) (w : Worker R)
      → IsClean takes r b pkts size room w
      → IsClean takes r b pkts size room (let_through takes r pkt w).1
  unfolding let_through
  let_through-IsClean pkt w p =
      queue-IsClean takes r b pkts w (submit takes pkt allow w.queue).1
        (submit-AllDue takes r b pkts pkt allow w.queue (λ is. absurd (ground arith)) p.answers) p

  inspect-IsClean :
      {size room : ℕ} (now : ℕ) (pkt : Packet) (w : Worker R)
      → In (move_packet pkt).0 pkts
      → IsClean takes r b pkts size room w
      → IsClean takes r b pkts size room (inspect takes r now pkt w).1
  unfolding inspect
  inspect-IsClean now pkt w member p =
      let moved = (move_packet pkt).0 in
      Step-IsClean takes r b pkts (moved ∷ []) w (feed r (policy w.blocklist) now moved w.tls)
        (member, tt) (feeds w.tls now moved) p

  either_way :
      {size room : ℕ} (test : Bool) (x y : Packet × Worker R)
      → IsClean takes r b pkts size room x.1
      → IsClean takes r b pkts size room y.1
      → IsClean takes r b pkts size room (if test then x else y).1
  either_way true x y px py = px
  either_way false x y px py = py

  on_packet-IsClean :
      {size room : ℕ} (now : ℕ) (pkt : Packet) (w : Worker R)
      → In (move_packet pkt).0 pkts
      → IsClean takes r b pkts size room w
      → IsClean takes r b pkts size room (on_packet takes r now pkt w).1
  unfolding on_packet
  on_packet-IsClean now pkt w member p =
      either_way w.passthrough (let_through takes r pkt w) (inspect takes r now pkt w)
        (let_through-IsClean pkt w p) (inspect-IsClean now pkt w member p)

  answer_for-IsClean :
      {size room : ℕ} (left : Packet) (w : Worker R)
      → IsClean takes r b pkts size room w
      → IsClean takes r b pkts size room (answer_for takes r left w)
  unfolding answer_for
  answer_for-IsClean left w p =
      let counted = record w.queue { undecided = (w.queue.undecided + 1) % 2 ^ 64 } in
      queue-IsClean takes r b pkts w (submit takes left allow counted).1
        (submit-AllDue takes r b pkts left allow counted (λ is. absurd (ground arith)) p.answers) p

  handle-IsClean :
      {size room : ℕ} (a : Arrival) (w : Worker R)
      → In (move_packet (arrived_packet a)).0 pkts
      → IsClean takes r b pkts size room w
      → IsClean takes r b pkts size room (handle takes r a w)
  unfolding handle
  handle-IsClean a w member p =
      let counted = record w.queue { received = (w.queue.received + 1) % 2 ^ 64 } in
      let start = record w { queue = counted } in
      let called = on_packet takes r a.now (arrived_packet a) start in
      let after =
        on_packet-IsClean a.now (arrived_packet a) start member
          (queue-IsClean takes r b pkts w counted p.answers p) in
      elim (Bool-cases called.0.pending) [
        | inl left ↦ rw left (answer_for-IsClean called.0 called.1 after)
        | inr taken ↦ rw taken after
      ]

  handle_all-IsClean :
      {size room : ℕ} (arrivals : List Arrival) (w : Worker R)
      → All (λ pkt. In pkt pkts) (fed_by arrivals)
      → IsClean takes r b pkts size room w
      → IsClean takes r b pkts size room (handle_all takes r arrivals w)
  unfolding handle_all
  handle_all-IsClean [] w members p = p
  handle_all-IsClean (a ∷ arrivals) w members p =
      handle_all-IsClean arrivals (handle takes r a w) members.1 (handle-IsClean a w members.0 p)

  drain_decided-IsClean :
      {size room : ℕ} (w : Worker R)
      → IsClean takes r b pkts size room w
      → IsClean takes r b pkts size room (drain_decided takes r w)
  unfolding drain_decided
  drain_decided-IsClean w p =
      queue-IsClean takes r b pkts (record w { tls = record w.tls { decided = [] } })
        (submit_all takes w.tls.decided w.queue)
        (submit_all-AllDue takes r b pkts w.tls.decided w.queue p.just.verdicts p.answers)
        (Step-IsClean takes r b pkts [] w (record w.tls { decided = [] }) tt (hands_over w.tls) p)

  turn-IsClean :
      {size room : ℕ} (arrivals : List Arrival) (now : ℕ) (w : Worker R)
      → All (λ pkt. In pkt pkts) (fed_by arrivals)
      → IsClean takes r b pkts size room w
      → IsClean takes r b pkts size room (turn takes r arrivals now w)
  unfolding turn
  turn-IsClean arrivals now w members p =
      let handled = handle_all takes r arrivals w in
      let after = handle_all-IsClean arrivals w members p in
      let ticked = tick r (policy handled.blocklist) now handled.tls in
      drain_decided-IsClean (record handled { tls = ticked })
        (Step-IsClean takes r b pkts [] handled ticked tt (ticks handled.tls now) after)

  loop-IsClean :
      {size room : ℕ} (turns : List (List Arrival × ℕ)) (w : Worker R)
      → All (λ pkt. In pkt pkts) (fed_in turns)
      → IsClean takes r b pkts size room w
      → IsClean takes r b pkts size room (loop takes r turns w)
  unfolding loop finish
  loop-IsClean [] w members p =
      let flushed = flush r (policy w.blocklist) w.tls in
      drain_decided-IsClean (record w { tls = flushed })
        (Step-IsClean takes r b pkts [] w flushed tt (flushes w.tls) p)
  loop-IsClean ((arrivals, now) ∷ turns) w members p =
      loop-IsClean turns (turn takes r arrivals now w)
        (All-append_right (λ pkt. In pkt pkts) (fed_by arrivals) (fed_in turns) members)
        (turn-IsClean arrivals now w
          (All-append_left (λ pkt. In pkt pkts) (fed_by arrivals) (fed_in turns) members) p)

-- From its start to the end of its loop, each packet that the worker has answered with BLOCK has the id
-- of a packet that it has taken from the kernel, of some TCP flow; and pieces that the reassembler, in
-- some state, delivers from the client for packets of that flow that the worker has taken, one behind
-- the other, are a stream in which the parser finds a hostname that the block list blocks.
pub loop-drops_due {ℓ} :
    {R : Type ℓ} (takes : List (ℕ × Verdict) → Bool) (r : Reassembler R) (passthrough : Bool)
    (b : BlockList) (reassembly : R) (max_flows max_blocked : ℕ) (turns : List (List Arrival × ℕ))
    → AllDue takes r b
        (fed_in turns)
        (loop takes r turns
          (new_worker passthrough b reassembly max_flows max_blocked)).queue.answered
unfolding new_worker
loop-drops_due takes r passthrough b reassembly max_flows max_blocked turns =
    (loop-IsClean takes r b (fed_in turns) turns
      (new_worker passthrough b reassembly max_flows max_blocked)
      (All-of (λ pkt. In pkt (fed_in turns)) (fed_in turns) (λ x h. h))
      (record {
        same_list = refl;
        sound = new_extractor-IsSound r (policy b) reassembly max_flows max_blocked;
        just = new_extractor-IsAllJust r (policy b) reassembly max_flows max_blocked (fed_in turns);
        answers = tt;
      })).answers
