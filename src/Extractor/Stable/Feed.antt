-- ===== src/Extractor/Stable/Feed.antt =====
-- `feed` keeps a stable predicate.
use packet_inspector.Base.{
  ℕ, ◌+◌, ◌%◌, ◌^◌, ◌≡◌, refl, inl, inr, not, ◌&&◌, Option, none, some, leb, Bool-cases,
  Option-cases, Bytes, length,
}
use packet_inspector.Packet.{Packet, Verdict}
use packet_inspector.Packet.Dissect.{FlowView}
use packet_inspector.Extractor.Table.{find, update, insert}
use packet_inspector.Extractor.State.{
  FlowState, waiting, blocking, Conn, new_conn, Reassembler, Extractor,
}
use packet_inspector.Extractor.Ring.{publish}
use packet_inspector.Extractor.Feed.{
  opens_tls_handshake, is_client_syn, tcp_flow, ensure_room, start_flow, admit, feed_known,
  feed_flow, tick, feed,
}
use packet_inspector.Extractor.Conserve.Tables.{
  IsTidy, find-insert_self, find-update_self, insert-IsTidy,
}
use packet_inspector.Extractor.Conserve.Sweep.{tick-Kept}
use packet_inspector.Extractor.Conserve.Feed.{ensure_room-Kept}
use packet_inspector.Extractor.Stable.{Core, core, Grows, Scope, IsGuarded}
use packet_inspector.Extractor.Stable.Sweep.{tick-keeps, ensure_room-keeps}
use packet_inspector.Extractor.Stable.Track.{Delivers, track-keeps}

module _ {ℓ ι σ κ} {R : Type ℓ} (r : Reassembler R) (policy : Option Bytes → Verdict)
    {Heard : ℕ → Bytes → Type ι} {Sent : ℕ → ℕ → Type σ} {scope : Scope}
    {P : Option ℕ → Core → Type κ} (guarded : IsGuarded R policy Heard Sent scope P) where
  start_flow-keeps :
      (now : ℕ) (pkt : Packet) (f : FlowView) (e : Extractor R)
      → find f.key e.conns ≡ none
      → scope.may f.key
      → IsTidy e.conns
      → Sent f.key pkt.id
      → Delivers r policy guarded f.key pkt
      → P none (core e)
      → P none (core (start_flow r policy now pkt f e))
  unfolding start_flow
  start_flow-keeps now pkt f e new may t sent delivers p =
      elim (Bool-cases (leb e.max_flows (length e.conns))) [
        | inl full ↦ rw full (
            (guarded.stable none).let_go pkt
              (record e { dropped_at_cap = (e.dropped_at_cap + 1) % 2 ^ 64 }) p)
        | inr free ↦ rw free (
            track-keeps r policy guarded now pkt f new_conn
              (record e { conns = insert f.key new_conn e.conns })
              (find-insert_self f.key new_conn e.conns) refl may
              (insert-IsTidy f.key new_conn e.conns (λ b. refl) new t) sent delivers
              ((guarded.stable none).add f.key e may new p))
      ]

  admit-keeps :
      (now : ℕ) (pkt : Packet) (f : FlowView) (e : Extractor R)
      → find f.key e.conns ≡ none
      → scope.timely now
      → scope.may f.key
      → IsTidy e.conns
      → Sent f.key pkt.id
      → Delivers r policy guarded f.key pkt
      → P none (core e)
      → P none (core (admit r policy now pkt f e))
  unfolding admit
  admit-keeps now pkt f e new timely may t sent delivers p =
      elim (Bool-cases (not (is_client_syn f) && not (opens_tls_handshake f.payload))) [
        | inl other ↦ rw other ((guarded.stable none).let_go pkt e p)
        | inr opens ↦
            let k = ensure_room-Kept r policy 0 now e t in
            rw opens (
              start_flow-keeps now pkt f (ensure_room r policy now e) (k.still_new f.key new) may
                k.tidy sent delivers
                (ensure_room-keeps r policy (guarded.stable none) guarded.deaf now e timely t p))
      ]

  feed_known-keeps :
      (state : FlowState) (now : ℕ) (pkt : Packet) (f : FlowView) (c : Conn) (e : Extractor R)
      → c.state ≡ state
      → find f.key e.conns ≡ some c
      → scope.may f.key
      → IsTidy e.conns
      → Sent f.key pkt.id
      → Delivers r policy guarded f.key pkt
      → P none (core e)
      → P none (core (feed_known r policy now pkt f c e))
  unfolding feed_known
  feed_known-keeps waiting now pkt f c e is there may t sent delivers p =
      rw (is, feed_known)
        (track-keeps r policy guarded now pkt f c e there is may t sent delivers p)
  feed_known-keeps blocking now pkt f c e is there may t sent delivers p =
      let w = record c { last = now } in
      let same : Grows Heard Sent f.key c w = record {
        same_state = refl;
        stream_grows = λ s. s;
        held_grows = λ h. h;
      } in
      rw (is, feed_known)
        ((guarded.stable none).drop_packet pkt f.key w (record e { conns = update f.key w e.conns })
          (find-update_self f.key w e.conns there) is sent
          ((guarded.stable none).write f.key c w e may t there same p))

  feed_flow-keeps :
      (now : ℕ) (pkt : Packet) (f : FlowView) (e : Extractor R)
      → scope.timely now
      → scope.may f.key
      → IsTidy e.conns
      → Sent f.key pkt.id
      → Delivers r policy guarded f.key pkt
      → P none (core e)
      → P none (core (feed_flow r policy now pkt f e))
  unfolding feed_flow
  feed_flow-keeps now pkt f e timely may t sent delivers p =
      elim (Option-cases (find f.key e.conns)) [
        | inl new ↦ rw (new, feed_flow) (admit-keeps now pkt f e new timely may t sent delivers p)
        | inr (c, there) ↦
            rw (there, feed_flow)
              (feed_known-keeps c.state now pkt f c e refl there may t sent delivers p)
      ]

  -- What every step of the extractor keeps, `feed` keeps.
  pub feed-keeps :
      (now : ℕ) (pkt : Packet) (e : Extractor R)
      → scope.timely now
      → IsTidy e.conns
      → ((f : FlowView)
          → tcp_flow pkt ≡ some f
          → scope.may f.key × Sent f.key pkt.id × Delivers r policy guarded f.key pkt)
      → P none (core e)
      → P none (core (feed r policy now pkt e))
  unfolding feed publish
  feed-keeps now pkt e timely t sends p =
      let k = tick-Kept r policy 0 now e t in
      let ticked = tick r policy now e in
      let p' = tick-keeps r policy (guarded.stable none) guarded.deaf now e timely t p in
      elim (Option-cases (tcp_flow pkt)) [
        | inl other ↦ rw other ((guarded.stable none).let_go pkt ticked p')
        | inr (f, is_tcp) ↦ rw is_tcp (
            feed_flow-keeps now pkt f ticked timely (sends f is_tcp).0 k.tidy (sends f is_tcp).1
              (sends f is_tcp).2 p')
      ]
