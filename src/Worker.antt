-- ===== src/Worker.antt =====
-- src/worker.cpp and the packet path of src/NFQueue.cpp: a packet is received, fed to the extractor or
-- let through, and answered for. `nfq_set_verdict` is a parameter: whether the kernel took the last of
-- the calls made so far. A turn of the loop is what one `recv` brought, and the time of the `tick`.
pub mod Answers
pub mod Clean
pub mod Dropped
pub mod Listed
pub mod Ids
use packet_inspector.Base.{
  ℕ, ◌+◌, ◌%◌, ◌^◌, Bool, true, false, not, ◌&&◌, Option, none, some, List, [], ◌∷◌, ◌++◌, ltb,
  if◌then◌else◌, Bytes,
}
use packet_inspector.Packet.{
  Packet, Verdict, allow, block, packet_view, move_packet, release_bytes, set_verdict,
  clear_pending,
}
use packet_inspector.BlockList.{BlockList, is_hostname_blocked}
use packet_inspector.Extractor.State.{Decided, Reassembler, Extractor, new_extractor}
use packet_inspector.Extractor.Feed.{feed, tick, flush}

-- The calls of `nfq_set_verdict`, oldest first, and the counters.
pub record Queue : Type 0 where
  pub answered : List (ℕ × Verdict)
  pub received : ℕ
  pub undecided : ℕ
  pub verdicted : ℕ

-- What libnetfilter_queue hands over: the id, if the header is there, and the payload. A failed
-- `nfq_get_payload` (−1) stands as the length 0, which is refused alike.
pub record Arrival : Type 0 where
  pub header : Option ℕ
  pub payload : Option Bytes
  pub len : ℕ
  pub now : ℕ

pub record Worker {ℓ} (R : Type ℓ) : Type ℓ where
  pub passthrough : Bool
  pub blocklist : BlockList
  pub queue : Queue
  pub tls : Extractor R

-- A worker before its first packet.
unfoldable pub new_worker {ℓ} : {R : Type ℓ} → Bool → BlockList → R → ℕ → ℕ → Worker R
new_worker passthrough b reassembly max_flows max_blocked = record {
  passthrough = passthrough;
  blocklist = b;
  queue = record { answered = []; received = 0; undecided = 0; verdicted = 0 };
  tls = new_extractor reassembly max_flows max_blocked;
}

-- The worker's policy, without its log line.
unfoldable pub policy : BlockList → Option Bytes → Verdict
policy b none = allow
policy b (some hostname) = if is_hostname_blocked b hostname then block else allow

abbrev pub arrival_id : Option ℕ → ℕ
arrival_id none = 0
arrival_id (some id) = id

-- The packet that `handle` makes.
unfoldable pub view_of : Option Bytes → ℕ → ℕ → Packet
view_of none len id = packet_view none 0 id
view_of (some bytes) len id =
    if ltb 0 len then packet_view (some bytes) len id else packet_view none 0 id

unfoldable pub arrived_packet : Arrival → Packet
arrived_packet a = view_of a.payload a.len (arrival_id a.header)

module _ (takes : List (ℕ × Verdict) → Bool) where
  -- The packet afterwards, and the queue.
  unfoldable pub submit : Packet → Verdict → Queue → Packet × Queue
  submit pkt v q =
      if not pkt.pending
      then (pkt, q)
      else let answered = q.answered ++ (pkt.id, v) ∷ [] in
        (
          clear_pending (release_bytes (set_verdict v pkt)),
          record q {
            answered = answered;
            verdicted = if takes answered then (q.verdicted + 1) % 2 ^ 64 else q.verdicted;
          },
        )

  unfoldable pub submit_all : List Decided → Queue → Queue
  submit_all [] q = q
  submit_all (d ∷ ds) q = submit_all ds (submit d.pkt d.verdict q).1

  module _ {ℓ} {R : Type ℓ} (r : Reassembler R) where
    -- The callback of the queue: what it leaves of the packet, and the worker.
    unfoldable pub let_through : Packet → Worker R → Packet × Worker R
    let_through pkt w =
        let submitted = submit pkt allow w.queue in (submitted.0, record w { queue = submitted.1 })

    unfoldable pub inspect : ℕ → Packet → Worker R → Packet × Worker R
    inspect now pkt w =
        let moved = move_packet pkt in
        (moved.1, record w { tls = feed r (policy w.blocklist) now moved.0 w.tls })

    unfoldable pub on_packet : ℕ → Packet → Worker R → Packet × Worker R
    on_packet now pkt w = if w.passthrough then let_through pkt w else inspect now pkt w

    -- The check behind the callback in `NFQueue::handle`, for a packet that is still pending.
    unfoldable pub answer_for : Packet → Worker R → Worker R
    answer_for left w =
        let counted = record w.queue { undecided = (w.queue.undecided + 1) % 2 ^ 64 } in
        record w { queue = (submit left allow counted).1 }

    -- `NFQueue::handle`
    unfoldable pub handle : Arrival → Worker R → Worker R
    handle a w =
        let counted = record w.queue { received = (w.queue.received + 1) % 2 ^ 64 } in
        let called = on_packet a.now (arrived_packet a) (record w { queue = counted }) in
        if called.0.pending then answer_for called.0 called.1 else called.1

    unfoldable pub handle_all : List Arrival → Worker R → Worker R
    handle_all [] w = w
    handle_all (a ∷ rest) w = handle_all rest (handle a w)

    unfoldable pub drain_decided : Worker R → Worker R
    drain_decided w = record w {
      queue = submit_all w.tls.decided w.queue;
      tls = record w.tls { decided = [] };
    }

    -- One turn; nothing has arrived where the queue was idle.
    unfoldable pub turn : List Arrival → ℕ → Worker R → Worker R
    turn arrivals now w =
        let handled = handle_all arrivals w in
        drain_decided (record handled { tls = tick r (policy handled.blocklist) now handled.tls })

    -- Behind the loop.
    unfoldable pub finish : Worker R → Worker R
    finish w = drain_decided (record w { tls = flush r (policy w.blocklist) w.tls })

    -- The loop; the list ends where the queue was stopped or failed.
    unfoldable pub loop : List (List Arrival × ℕ) → Worker R → Worker R
    loop [] w = finish w
    loop ((arrivals, now) ∷ turns) w = loop turns (turn arrivals now w)
