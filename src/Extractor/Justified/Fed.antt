-- ===== src/Extractor/Justified/Fed.antt =====
-- The packets that `feed` of src/hostname_extractor.cpp has been given, and those that it drops.
use packet_inspector.Base.{
  ℕ, suc, ◌≡◌, refl, subst, Option, none, some, List, [], ◌∷◌, ◌++◌, arith, Bytes, get_elem?, All,
}
use packet_inspector.Packet.{Packet, Verdict, allow}
use packet_inspector.Packet.Dissect.{FlowView}
use packet_inspector.Extractor.Table.{find}
use packet_inspector.Extractor.State.{
  Event, connection_start, message_ready, connection_end, Reassembler, Extractor, new_extractor,
}
use packet_inspector.Extractor.Feed.{tcp_flow, raw_bytes, waiting_keys}
use packet_inspector.Extractor.Conserve.Tables.{IsTidy}
use packet_inspector.Extractor.Stable.{core, HeardEvent, All-AnyKey}
use packet_inspector.Extractor.Stable.Sweep.{tick-keeps, flush-keeps}
use packet_inspector.Extractor.Stable.Feed.{feed-keeps}
use packet_inspector.Extractor.Reached.{
  Step, feeds, ticks, flushes, hands_over, Reached, here, next, IsSound, new_extractor-IsSound,
  Reached-IsSound,
}
use packet_inspector.Extractor.Justified.{IsJust, AllCondemned}
use packet_inspector.Extractor.Justified.Steps.{IsJust-IsGuarded}

-- The element stands in the list.
abbrev pub In {ℓ} : {A : Type ℓ} → A → List A → Type ℓ
In x xs = (i : ℕ) × (get_elem? xs i ≡ some x)

pub All-of {ℓ κ} :
    {A : Type ℓ} (P : A → Type κ) (xs : List A) → ((x : A) → In x xs → P x) → All P xs
All-of P [] f = tt
All-of P (x ∷ xs) f = (f x (0, refl), All-of P xs (λ y h. f y (suc h.0, h.1)))

pub All-append_left {ℓ κ} :
    {A : Type ℓ} (P : A → Type κ) (xs ys : List A) → All P (xs ++ ys) → All P xs
All-append_left P [] ys h = tt
All-append_left P (x ∷ xs) ys h = (h.0, All-append_left P xs ys h.1)

pub All-append_right {ℓ κ} :
    {A : Type ℓ} (P : A → Type κ) (xs ys : List A) → All P (xs ++ ys) → All P ys
All-append_right P [] ys h = h
All-append_right P (x ∷ xs) ys h = All-append_right P xs ys h.1

-- One of the packets, of the flow `key`.
pub record IsOfFlow (pkts : List Packet) (key : ℕ) (pkt : Packet) : Type 0 where
  pub member : In pkt pkts
  pub flow : FlowView
  pub is_tcp : tcp_flow pkt ≡ some flow
  pub same_key : flow.key ≡ key

-- One of the packets that is of the flow `key` has this id.
pub record IsFed (pkts : List Packet) (key id : ℕ) : Type 0 where
  pub pkt : Packet
  pub of_flow : IsOfFlow pkts key pkt
  pub same_id : pkt.id ≡ id

-- Bytes of the client that the reassembler, in some state, delivers for one of the packets, of the flow
-- `key`.
pub record IsHeard {ℓ} {R : Type ℓ} (r : Reassembler R) (pkts : List Packet) (key : ℕ)
    (bytes : Bytes) : Type ℓ where
  pub pkt : Packet
  pub of_flow : IsOfFlow pkts key pkt
  pub state : R
  pub flow_key : ℕ
  pub delivered : In (message_ready 0 flow_key bytes) (r.reassemble (raw_bytes pkt) state).0

module _ {ℓ} {R : Type ℓ} (r : Reassembler R) (policy : Option Bytes → Verdict) where
  IsHeard-of :
      (pkts : List Packet) (pkt : Packet) (f : FlowView) (s : R) (x : Event)
      → IsOfFlow pkts f.key pkt
      → In x (r.reassemble (raw_bytes pkt) s).0
      → HeardEvent (IsHeard r pkts) f.key x
  IsHeard-of pkts pkt f s (message_ready side flow_key bytes) of_flow h = λ client. record {
    pkt = pkt;
    of_flow = of_flow;
    state = s;
    flow_key = flow_key;
    delivered =
        subst (λ n. In (message_ready n flow_key bytes) (r.reassemble (raw_bytes pkt) s).0) client
          h;
  }
  IsHeard-of pkts pkt f s (connection_start flow_key) of_flow h = tt
  IsHeard-of pkts pkt f s connection_end of_flow h = tt

  -- The verdicts that stand in the state, and its flows, when no packet is in the reassembler.
  abbrev pub IsAllJust : List Packet → Extractor R → Type ℓ
  IsAllJust pkts e = IsJust policy (IsHeard r pkts) (IsFed pkts) none (core e)

  pub Step-IsAllJust :
      {new : List Packet} {e f : Extractor R} (pkts : List Packet)
      → policy none ≡ allow
      → All (λ pkt. In pkt pkts) new
      → Step r policy new e f
      → IsTidy e.conns
      → IsAllJust pkts e
      → IsAllJust pkts f
  Step-IsAllJust pkts lenient members (feeds e now pkt) t p =
      feed-keeps r policy (IsJust-IsGuarded policy (IsHeard r pkts) (IsFed pkts) lenient) now pkt e
        tt t
        (λ f is.
          let of_flow : IsOfFlow pkts f.key pkt = record {
            member = members.0;
            flow = f;
            is_tcp = is;
            same_key = refl;
          } in
          (
            tt,
            record { pkt = pkt; of_flow = of_flow; same_id = refl },
            λ s.
                All-of (HeardEvent (IsHeard r pkts) f.key) (r.reassemble (raw_bytes pkt) s).0
                  (λ x h. IsHeard-of pkts pkt f s x of_flow h),
          ))
        p
  Step-IsAllJust pkts lenient members (ticks e now) t p =
      let guarded = IsJust-IsGuarded policy (IsHeard r pkts) (IsFed pkts) lenient in
      tick-keeps r policy (guarded.stable none) guarded.deaf now e tt t p
  Step-IsAllJust pkts lenient members (flushes e) t p =
      let guarded = IsJust-IsGuarded policy (IsHeard r pkts) (IsFed pkts) lenient in
      flush-keeps r policy (guarded.stable none) guarded.deaf e tt
        (All-AnyKey (waiting_keys e.conns)) t p
  Step-IsAllJust pkts lenient members (hands_over e) t p = record {
    verdicts = tt;
    flows = p.flows;
    in_mode = p.in_mode;
  }

  pub Reached-IsAllJust :
      {size room : ℕ} {e : Extractor R} {fed : List Packet} {f : Extractor R} (pkts : List Packet)
      → policy none ≡ allow
      → All (λ pkt. In pkt pkts) fed
      → IsSound r policy size room e
      → Reached r policy e fed f
      → IsAllJust pkts e
      → IsAllJust pkts f
  Reached-IsAllJust pkts lenient members s here p = p
  Reached-IsAllJust pkts lenient members s (next {pkts = before} {more_pkts = new} way st) p =
      let earlier = All-append_left (λ pkt. In pkt pkts) before new members in
      Step-IsAllJust pkts lenient (All-append_right (λ pkt. In pkt pkts) before new members) st
        (Reached-IsSound r policy s way).tidy (Reached-IsAllJust pkts lenient earlier s way p)

  pub new_extractor-IsAllJust :
      (reassembly : R) (max_flows max_blocked : ℕ) (pkts : List Packet)
      → IsAllJust pkts (new_extractor reassembly max_flows max_blocked)
  unfolding new_extractor find
  new_extractor-IsAllJust reassembly max_flows max_blocked pkts = record {
    verdicts = tt;
    flows = λ k c h. absurd (ground arith);
    in_mode = refl;
  }

  -- If the policy lets flows without a hostname through: in every state that a new extractor gets into
  -- by feeds, ticks, flushes and handing its verdicts over, each packet that it has decided to block has
  -- the id of a packet that was fed, of some TCP flow; and pieces that the reassembler, in some state,
  -- delivers from the client for packets of that flow that were fed, one behind the other, are a stream
  -- in which the parser finds a hostname that the policy blocks.
  pub Reached-justified :
      (reassembly : R) (max_flows max_blocked : ℕ) (pkts : List Packet) (e : Extractor R)
      → policy none ≡ allow
      → Reached r policy (new_extractor reassembly max_flows max_blocked) pkts e
      → AllCondemned policy (IsHeard r pkts) (IsFed pkts) e.decided
  Reached-justified reassembly max_flows max_blocked pkts e lenient way =
      let all = All-of (λ pkt. In pkt pkts) pkts (λ x h. h) in
      let start = new_extractor-IsSound r policy reassembly max_flows max_blocked in
      (Reached-IsAllJust pkts lenient all start way
        (new_extractor-IsAllJust reassembly max_flows max_blocked pkts)).verdicts
