-- ===== src/Extractor/Isolated.antt =====
-- What becomes of a flow that waits while src/hostname_extractor.cpp works on the others.
pub mod Spared
use packet_inspector.Base.{
  ℕ, zero, suc, ◌≡◌, ◌≢◌, refl, sym, ◌∙◌, inl, inr, true, false, not, ◌&&◌, Option, none, some,
  List, [], ◌∷◌, arith, ◌==◌, Bool-cases, Bytes, get_or, All,
}
use packet_inspector.Packet.{Packet, Verdict, allow, block}
use packet_inspector.Packet.Dissect.{FlowView}
use packet_inspector.Extractor.Table.{find, erase, update, insert}
use packet_inspector.Extractor.State.{
  waiting, Conn, new_conn, Reassembler, Extractor, is_blocking, block_conn,
}
use packet_inspector.Extractor.Ring.{
  publish, park, forget_blocked, take_slot, remember_blocked, evict, evict_oldest_blocked,
}
use packet_inspector.Extractor.Callbacks.{defer_close, settle, resolve_conn}
use packet_inspector.Extractor.Feed.{tcp_flow, raw_bytes, is_expired, expired, tick, feed}
use packet_inspector.Extractor.Conserve.Tables.{IsTidy}
use packet_inspector.Extractor.Conserve.Settle.{
  find-update_other, park_all-conns, defer_close-conns,
}
use packet_inspector.Extractor.Resolved.{find-erase_other}
use packet_inspector.Extractor.Idle.{resolve_conn-mode}
use packet_inspector.Extractor.Justified.{IsMode}
use packet_inspector.Extractor.Justified.Log.{evict-IsSameLog, same-IsMode}
use packet_inspector.Extractor.Stable.{
  Core, Scope, IsStable, IsGuarded, AnyBytes, AnyPacket, any_events,
}
use packet_inspector.Extractor.Stable.Sweep.{tick-keeps}
use packet_inspector.Extractor.Stable.Feed.{feed-keeps}
use packet_inspector.Extractor.Isolated.Spared.{All-expired, evict-spares, resolve_conn-spares}

-- The other flows, at the time `now`, and no flush.
abbrev around : ℕ → ℕ → Scope
around key now = record { may = λ k. k ≢ key; timely = λ t. t ≡ now; ends = ⊥ }

-- The entry of a flow that waits and that has not expired, while another flow, if any, is fed.
record IsUntouched (key : ℕ) (c : Conn) (mode : Option ℕ) (s : Core) : Type 0 where
  entry : find key s.conns ≡ some c
  in_mode : IsMode mode s
  busy : s.feeding ≡ true → s.current_key ≢ key

module _ {ℓ} {R : Type ℓ} (key : ℕ) {c : Conn} (is : c.state ≡ waiting) where
  -- Provided that the flow has not expired.
  IsUntouched-IsStable :
      (policy : Option Bytes → Verdict) (now : ℕ) (mode : Option ℕ)
      → is_expired now c ≡ false
      → IsStable R policy AnyBytes AnyPacket (around key now) (IsUntouched key c mode)
  unfolding evict_oldest_blocked park insert find
  IsUntouched-IsStable policy now mode fresh = record {
    aware = λ s p feeding. p.busy feeding;
    aged = λ t s due tidy p. rw due (
        All-expired key now s.conns
          (λ d h. let same : c ≡ d = ground (arith, p.entry, h) in rw same at fresh) tidy);
    write = λ k d w e ne t there grows p. record {
      entry = find-update_other key k w e.conns (λ z. ne (sym z)) ∙ p.entry;
      in_mode = same-IsMode mode e (record e { conns = update k w e.conns }) refl refl p.in_mode;
      busy = p.busy;
    };
    add = λ k e ne new p. record {
      entry = let miss : (k == key) ≡ false = ground arith in rw miss p.entry;
      in_mode =
          same-IsMode mode e (record e { conns = insert k new_conn e.conns }) refl refl p.in_mode;
      busy = p.busy;
    };
    forget = λ k d e t there blocked p. record {
      entry =
          find-erase_other key k e.conns
            (λ z. let other = rw z at p.entry in ground (arith, is, blocked, there, other))
          ∙ p.entry;
      in_mode = same-IsMode mode e (record e { conns = erase k e.conns }) refl refl p.in_mode;
      busy = p.busy;
    };
    let_go = λ pkt e p. record {
      entry = p.entry;
      in_mode = same-IsMode mode e (park pkt allow e) refl refl p.in_mode;
      busy = p.busy;
    };
    drop_packet = λ pkt k d e there blocked sent p. record {
      entry = p.entry;
      in_mode = same-IsMode mode e (park pkt block e) refl refl p.in_mode;
      busy = p.busy;
    };
    settle_flow = λ k hostname d e ne t there waits known p.
        let m = resolve_conn-mode policy k hostname d e waits in
        record {
          entry = resolve_conn-spares key is policy k hostname d e waits (λ z. ne (sym z)) p.entry;
          in_mode = same-IsMode mode e (resolve_conn policy k hostname d e) m.0 m.1 p.in_mode;
          busy = λ feeding. rw m.0 (p.busy (sym m.1 ∙ feeding));
        };
    make_space = λ e t p.
        let s = evict-IsSameLog e.max_blocked e in
        record {
          entry = evict-spares key is e.max_blocked e p.entry;
          in_mode =
              same-IsMode mode e (evict e.max_blocked e).0 s.same_key s.same_feeding p.in_mode;
          busy = λ feeding. rw s.same_key (p.busy (sym s.same_feeding ∙ feeding));
        };
    clear = λ e ends p. absurd ends;
  }

  IsUntouched-IsGuarded :
      (policy : Option Bytes → Verdict) (now : ℕ)
      → is_expired now c ≡ false
      → IsGuarded R policy AnyBytes AnyPacket (around key now) (IsUntouched key c)
  IsUntouched-IsGuarded policy now fresh = record {
    stable = λ mode. IsUntouched-IsStable policy now mode fresh;
    enter = λ k e ne p. record { entry = p.entry; in_mode = refl; busy = λ feeding. ne };
    leave = λ k e p. record {
      entry = p.entry;
      in_mode = refl;
      busy = λ feeding. absurd (ground arith);
    };
    deaf = λ s bytes p feeding. tt;
    tuned = λ k s bytes p heard. tt;
  }

module _ {ℓ} {R : Type ℓ} (r : Reassembler R) (policy : Option Bytes → Verdict) where
  -- Between two packets, on a table in which blocked flows hold nothing and no key stands twice: what
  -- `tick` does, a sweep included, leaves a flow that waits as it is, if its last packet is not yet 10
  -- seconds old; no packet is in the reassembler afterwards.
  pub tick-spares :
      (now key : ℕ) (c : Conn) (e : Extractor R)
      → IsTidy e.conns
      → e.feeding ≡ false
      → find key e.conns ≡ some c
      → c.state ≡ waiting
      → is_expired now c ≡ false
      → (find key (tick r policy now e).conns ≡ some c) × ((tick r policy now e).feeding ≡ false)
  tick-spares now key c e t idle there is fresh =
      let p =
        tick-keeps r policy (IsUntouched-IsStable key is policy now none fresh)
          (λ s bytes p feeding. tt) now e refl t
          (record { entry = there; in_mode = idle; busy = λ feeding. cc }) in
      (p.entry, p.in_mode)

  -- Between two packets, on a table in which blocked flows hold nothing and no key stands twice: a
  -- packet that is not of a flow that waits leaves that flow as it is, if its last packet is not yet 10
  -- seconds old, whatever the reassembler calls back for the packet, and though it may start a flow,
  -- resolve one, sweep the table or make room in it; no packet is in the reassembler afterwards.
  pub feed-spares :
      (now key : ℕ) (pkt : Packet) (c : Conn) (e : Extractor R)
      → IsTidy e.conns
      → e.feeding ≡ false
      → find key e.conns ≡ some c
      → c.state ≡ waiting
      → is_expired now c ≡ false
      → ((f : FlowView) → tcp_flow pkt ≡ some f → f.key ≢ key)
      → (find key (feed r policy now pkt e).conns ≡ some c)
        × ((feed r policy now pkt e).feeding ≡ false)
  feed-spares now key pkt c e t idle there is fresh other =
      let p =
        feed-keeps r policy (IsUntouched-IsGuarded key is policy now fresh) now pkt e refl t
          (λ f is_tcp.
            (other f is_tcp, tt, λ s. any_events f.key (r.reassemble (raw_bytes pkt) s).0))
          (record { entry = there; in_mode = idle; busy = λ feeding. cc }) in
      (p.entry, p.in_mode)
