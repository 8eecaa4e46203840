-- ===== src/Program/Sums.antt =====
-- The sums that `stats_line` of src/main.cpp prints last, when the workers have been joined.
use packet_inspector.Base.{ℕ, ◌+◌, ◌%◌, ◌^◌, ◌≡◌, refl, subst, Bool, true, List, [], ◌∷◌, arith}
use packet_inspector.Packet.{Verdict}
use packet_inspector.BlockList.{BlockList}
use packet_inspector.Extractor.State.{Reassembler}
use packet_inspector.Worker.{Arrival, new_worker, loop}
use packet_inspector.Worker.Ids.{arrived}
use packet_inspector.Program.{Counters, counters_of, Totals, no_totals, add_worker, sum_up}
use packet_inspector.Program.Counted.{IsSettled, loop-IsSettled}

-- The sums over workers that have had `n` packets and owe no verdict.
pub record IsFinal (n : ℕ) (t : Totals) : Type 0 where
  pub all_received : t.received ≡ n % 2 ^ 64
  pub all_verdicted : t.verdicted ≡ n % 2 ^ 64
  pub none_outstanding : t.outstanding ≡ 0
  pub none_tracked : t.flows ≡ 0
  pub none_undecided : t.undecided ≡ 0

add_worker-IsFinal :
    (m n : ℕ) (w : Counters) (t : Totals)
    → IsSettled n w
    → IsFinal m t
    → IsFinal (m + n) (add_worker w t)
unfolding add_worker
add_worker-IsFinal m n w t s f = record {
  all_received = omega (arith, s.all_received, f.all_received);
  all_verdicted = omega (arith, s.all_verdicted, f.all_verdicted);
  none_outstanding = omega (arith, s.none_outstanding, f.none_outstanding);
  none_tracked = omega (arith, s.none_tracked, f.none_tracked);
  none_undecided = omega (arith, s.none_undecided, f.none_undecided);
}

module _ {ℓ} {R : Type ℓ} (takes : List (ℕ × Verdict) → Bool) (r : Reassembler R)
    (all : (calls : List (ℕ × Verdict)) → takes calls ≡ true) (passthrough : Bool) (b : BlockList)
    (max_flows max_blocked : ℕ) where
  -- The counters of a worker whose loop has ended, on its reassembler when it was built and the turns
  -- of its loop.
  abbrev pub ended_counter : R → List (List Arrival × ℕ) → Counters
  ended_counter reassembly turns =
      counters_of (loop takes r turns (new_worker passthrough b reassembly max_flows max_blocked))

  abbrev pub ended_counters : List (R × List (List Arrival × ℕ)) → List Counters
  ended_counters [] = []
  ended_counters ((reassembly, turns) ∷ ws) = ended_counter reassembly turns ∷ ended_counters ws

  abbrev pub arrived_in : List (R × List (List Arrival × ℕ)) → ℕ
  arrived_in [] = 0
  arrived_in ((reassembly, turns) ∷ ws) = arrived turns + arrived_in ws

  sum_up-ended_counters :
      (ws : List (R × List (List Arrival × ℕ))) (m : ℕ) (t : Totals)
      → IsFinal m t
      → IsFinal (m + arrived_in ws) (sum_up (ended_counters ws) t)
  unfolding sum_up
  sum_up-ended_counters [] m t f = subst (λ n. IsFinal n t) (omega arith) f
  sum_up-ended_counters ((reassembly, turns) ∷ ws) m t f =
      let settled =
        loop-IsSettled takes r all passthrough b reassembly max_flows max_blocked turns in
      let counters = ended_counter reassembly turns in
      let next = add_worker-IsFinal m (arrived turns) counters t settled f in
      subst (λ n. IsFinal n (sum_up (ended_counters ws) (add_worker counters t))) (omega arith)
        (sum_up-ended_counters ws (m + arrived turns) _ next)

  -- If the kernel takes every verdict: when the loops of new workers have all ended, whatever each has
  -- met, `stats_line` sums up to as many packets received and as many verdicts as packets have arrived
  -- at all of them, modulo 2^64, none outstanding, no tracked flow and none undecided.
  pub sum_up-IsFinal :
      (ws : List (R × List (List Arrival × ℕ)))
      → IsFinal (arrived_in ws) (sum_up (ended_counters ws) no_totals)
  sum_up-IsFinal ws =
      subst (λ n. IsFinal n (sum_up (ended_counters ws) no_totals)) (omega arith)
        (sum_up-ended_counters ws 0 no_totals (record {
          all_received = refl;
          all_verdicted = refl;
          none_outstanding = refl;
          none_tracked = refl;
          none_undecided = refl;
        }))
