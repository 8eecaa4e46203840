-- ===== src/Extractor/Conserve/Feed.antt =====
-- The packets and the size of the table under `feed` and `tick` of src/hostname_extractor.cpp.
use packet_inspector.Base.{
  ℕ, ◌+◌, ◌%◌, ◌^◌, ◌≤◌, ◌≡◌, refl, ◌∙◌, inl, inr, not, ◌&&◌, Option, none, some, arith, leb,
  Bool-cases, Option-cases, lt_of_leb, Bytes, length,
}
use packet_inspector.Packet.{Packet, Verdict, allow, block}
use packet_inspector.Packet.Dissect.{FlowView}
use packet_inspector.Extractor.Table.{find, insert}
use packet_inspector.Extractor.State.{
  FlowState, waiting, blocking, Conn, new_conn, Reassembler, Extractor,
}
use packet_inspector.Extractor.Ring.{publish}
use packet_inspector.Extractor.Feed.{
  opens_tls_handshake, is_client_syn, tcp_flow, tick, ensure_room, start_flow, admit, feed_known,
  feed_flow, feed,
}
use packet_inspector.Extractor.Conserve.Tables.{
  has_id, times, IsTidy, insert-IsTidy, find-IsTidy, find-insert_self, count_held-insert,
  length-insert,
}
use packet_inspector.Extractor.Conserve.Steps.{
  Kept, Kept-refl, Kept-then, park-Kept, publish-Kept, update-Kept,
}
use packet_inspector.Extractor.Conserve.Sweep.{tick-Kept, make_room-Kept}
use packet_inspector.Extractor.Conserve.Track.{track-Kept}

module _ {ℓ} {R : Type ℓ} (r : Reassembler R) (policy : Option Bytes → Verdict) (i : ℕ) where
  -- A packet of a flow that is not in the table comes in once, and the table stays in its limit.
  pub record Fed (n : ℕ) (e e' : Extractor R) : Type 0 where
    pub tidy : IsTidy e'.conns
    pub times_are : times i e' ≡ n + times i e
    pub bounded : length e.conns ≤ e.max_flows → length e'.conns ≤ e'.max_flows
    pub same_cap : e'.max_flows ≡ e.max_flows

  Kept-Fed : {n : ℕ} (e e' : Extractor R) → Kept i n e e' → Fed n e e'
  Kept-Fed e e' k = record {
    tidy = k.tidy;
    times_are = k.times_are;
    bounded = λ b. omega (arith, k.no_more, k.same_cap, b);
    same_cap = k.same_cap;
  }

  Kept-then-Fed : {n : ℕ} (e f g : Extractor R) → Kept i 0 e f → Fed n f g → Fed n e g
  Kept-then-Fed e f g h k = record {
    tidy = k.tidy;
    times_are = omega (arith, h.times_are, k.times_are);
    bounded = λ b. k.bounded (omega (arith, h.no_more, h.same_cap, b));
    same_cap = k.same_cap ∙ h.same_cap;
  }

  publish-Fed : {n : ℕ} (e f : Extractor R) → Fed n e f → Fed n e (publish f)
  unfolding publish
  publish-Fed e f k = record {
    tidy = k.tidy;
    times_are = k.times_are;
    bounded = k.bounded;
    same_cap = k.same_cap;
  }

  pub ensure_room-Kept :
      (now : ℕ) (e : Extractor R) → IsTidy e.conns → Kept i 0 e (ensure_room r policy now e)
  unfolding ensure_room
  ensure_room-Kept now e t = elim (Bool-cases (leb e.max_flows (length e.conns))) [
    | inl full ↦ rw full (make_room-Kept r policy i now e t)
    | inr free ↦ rw free (Kept-refl i e t)
  ]

  start_flow-Fed :
      (now : ℕ) (pkt : Packet) (f : FlowView) (e : Extractor R)
      → find f.key e.conns ≡ none
      → IsTidy e.conns
      → Fed (has_id i pkt) e (start_flow r policy now pkt f e)
  unfolding start_flow
  start_flow-Fed now pkt f e new t = elim (Bool-cases (leb e.max_flows (length e.conns))) [
    | inl full ↦
        let dropped = record e { dropped_at_cap = (e.dropped_at_cap + 1) % 2 ^ 64 } in
        let k = park-Kept i pkt allow dropped t in
        rw full (record {
          tidy = k.tidy;
          times_are = k.times_are;
          bounded = λ b. omega (arith, k.no_more, k.same_cap, b);
          same_cap = k.same_cap;
        })
    | inr free ↦
        let added = record e { conns = insert f.key new_conn e.conns } in
        let tidy = insert-IsTidy f.key new_conn e.conns (λ b. refl) new t in
        let k =
          track-Kept r policy i now pkt f new_conn added (find-insert_self f.key new_conn e.conns)
            refl tidy in
        rw free (record {
          tidy = k.tidy;
          times_are = omega (arith, k.times_are, count_held-insert i f.key new_conn e.conns);
          bounded = λ b. omega (
            arith,
            k.no_more,
            k.same_cap,
            lt_of_leb _ _ free,
            length-insert f.key new_conn e.conns,
          );
          same_cap = k.same_cap;
        })
  ]

  admit-Fed :
      (now : ℕ) (pkt : Packet) (f : FlowView) (e : Extractor R)
      → find f.key e.conns ≡ none
      → IsTidy e.conns
      → Fed (has_id i pkt) e (admit r policy now pkt f e)
  unfolding admit
  admit-Fed now pkt f e new t =
      elim (Bool-cases (not (is_client_syn f) && not (opens_tls_handshake f.payload))) [
        | inl other ↦ rw other (Kept-Fed e _ (park-Kept i pkt allow e t))
        | inr opens ↦
            let k = ensure_room-Kept now e t in
            let roomy = ensure_room r policy now e in
            rw opens (
              Kept-then-Fed e roomy _ k
                (start_flow-Fed now pkt f roomy (k.still_new f.key new) k.tidy))
      ]

  feed_known-Kept :
      (state : FlowState) (now : ℕ) (pkt : Packet) (f : FlowView) (c : Conn) (e : Extractor R)
      → c.state ≡ state
      → find f.key e.conns ≡ some c
      → IsTidy e.conns
      → Kept i (has_id i pkt) e (feed_known r policy now pkt f c e)
  unfolding feed_known
  feed_known-Kept waiting now pkt f c e is there t =
      rw (is, feed_known) (track-Kept r policy i now pkt f c e there is t)
  feed_known-Kept blocking now pkt f c e is there t =
      let k =
        update-Kept i f.key c (record c { last = now }) e t there
          (find-IsTidy f.key e.conns there t) refl in
      rw (is, feed_known) (Kept-then i e _ _ k (park-Kept i pkt block _ k.tidy))

  feed_flow-Fed :
      (now : ℕ) (pkt : Packet) (f : FlowView) (e : Extractor R)
      → IsTidy e.conns
      → Fed (has_id i pkt) e (feed_flow r policy now pkt f e)
  unfolding feed_flow
  feed_flow-Fed now pkt f e t = elim (Option-cases (find f.key e.conns)) [
    | inl new ↦ rw (new, feed_flow) (admit-Fed now pkt f e new t)
    | inr (c, there) ↦
        rw (there, feed_flow) (Kept-Fed e _ (feed_known-Kept c.state now pkt f c e refl there t))
  ]

  pub feed-Fed :
      (now : ℕ) (pkt : Packet) (e : Extractor R)
      → IsTidy e.conns
      → Fed (has_id i pkt) e (feed r policy now pkt e)
  unfolding feed
  feed-Fed now pkt e t =
      let k = tick-Kept r policy i now e t in
      let ticked = tick r policy now e in
      elim (Option-cases (tcp_flow pkt)) [
        | inl other ↦ rw other (
            Kept-Fed e _
              (publish-Kept i e _ (Kept-then i e ticked _ k (park-Kept i pkt allow ticked k.tidy))))
        | inr (f, is_tcp) ↦
            rw is_tcp
              (publish-Fed e _ (Kept-then-Fed e ticked _ k (feed_flow-Fed now pkt f ticked k.tidy)))
      ]

module _ {ℓ} {R : Type ℓ} (r : Reassembler R) (policy : Option Bytes → Verdict) where
  -- On a table in which blocked flows hold nothing and no key stands twice: after `feed`, each packet
  -- that is owed a verdict is held or decided as often as before, the packet that was fed once more,
  -- and the table is again of that kind.
  pub feed-keeps_packets :
      (i now : ℕ) (pkt : Packet) (e : Extractor R)
      → IsTidy e.conns
      → (times i (feed r policy now pkt e) ≡ has_id i pkt + times i e)
        × IsTidy (feed r policy now pkt e).conns
  feed-keeps_packets i now pkt e t =
      let k = feed-Fed r policy i now pkt e t in (k.times_are, k.tidy)

  -- On a table in which blocked flows hold nothing and no key stands twice: after `tick`, every packet
  -- is held or decided as often as before, the table has no more entries and is again of that kind.
  pub tick-keeps_packets :
      (i now : ℕ) (e : Extractor R)
      → IsTidy e.conns
      → (times i (tick r policy now e) ≡ times i e)
        × (length (tick r policy now e).conns ≤ length e.conns)
        × IsTidy (tick r policy now e).conns
  tick-keeps_packets i now e t =
      let k = tick-Kept r policy i now e t in (omega (arith, k.times_are), k.no_more, k.tidy)
