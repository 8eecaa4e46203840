-- ===== src/Extractor/Idle.antt =====
-- Whether a packet is in the reassembler: `_feeding` of include/hostname_extractor.hpp.
use packet_inspector.Base.{
  ℕ, ◌≡◌, refl, ◌∙◌, inl, inr, false, not, ◌&&◌, ◌==◌, Bool-cases, Option, List, [], ◌∷◌, Bytes,
}
use packet_inspector.Packet.{Packet, Verdict, allow, block}
use packet_inspector.Extractor.Table.{update}
use packet_inspector.Extractor.State.{waiting, Conn, Extractor, block_conn}
use packet_inspector.Extractor.Ring.{park, park_all, evict_oldest_blocked}
use packet_inspector.Extractor.Callbacks.{defer_close, settle, resolve_conn}
use packet_inspector.Extractor.Stable.{Core, IsStable, AnyBytes, AnyPacket, everything, All-AnyKey}
use packet_inspector.Extractor.Feed.{expired}
use packet_inspector.Extractor.Justified.Log.{remember_blocked-IsSameLog, evict-IsSameLog}

abbrev pub IsIdle : Core → Type 0
IsIdle s = s.feeding ≡ false

module _ {ℓ} {R : Type ℓ} where
  park_all-mode :
      (pkts : List Packet) (v : Verdict) (e : Extractor R)
      → ((park_all pkts v e).current_key ≡ e.current_key)
        × ((park_all pkts v e).feeding ≡ e.feeding)
  unfolding park_all park
  park_all-mode [] v e = (refl, refl)
  park_all-mode (pkt ∷ pkts) v e = park_all-mode pkts v (park pkt v e)

  defer_close-mode :
      (c : Conn) (e : Extractor R)
      → ((defer_close c e).current_key ≡ e.current_key) × ((defer_close c e).feeding ≡ e.feeding)
  unfolding defer_close
  defer_close-mode c e = elim (Bool-cases (not (c.pcpp_key == 0) && not c.pcpp_closed)) [
    | inl closes ↦ rw closes (refl, refl)
    | inr done ↦ rw done (refl, refl)
  ]

  settle-mode :
      (v : Verdict) (key : ℕ) (c : Conn) (e : Extractor R)
      → ((settle v key c e).current_key ≡ e.current_key) × ((settle v key c e).feeding ≡ e.feeding)
  unfolding settle
  settle-mode allow key c e = (refl, refl)
  settle-mode block key c e =
      let s =
        remember_blocked-IsSameLog key (record e { conns = update key (block_conn c) e.conns }) in
      (s.same_key, s.same_feeding)

  pub resolve_conn-mode :
      (policy : Option Bytes → Verdict) (key : ℕ) (hostname : Option Bytes) (c : Conn)
      (e : Extractor R)
      → c.state ≡ waiting
      → ((resolve_conn policy key hostname c e).current_key ≡ e.current_key)
        × ((resolve_conn policy key hostname c e).feeding ≡ e.feeding)
  unfolding resolve_conn
  resolve_conn-mode policy key hostname c e is =
      let v = policy hostname in
      let settled_e = settle v key c e in
      let s = settle-mode v key c e in
      let d = defer_close-mode c settled_e in
      let h = park_all-mode c.held v (defer_close c settled_e) in
      rw (is, resolve_conn) (h.0 ∙ d.0 ∙ s.0, h.1 ∙ d.1 ∙ s.1)

pub IsIdle-IsStable {ℓ} :
    {R : Type ℓ} (policy : Option Bytes → Verdict)
    → IsStable R policy AnyBytes AnyPacket everything IsIdle
unfolding evict_oldest_blocked park
IsIdle-IsStable policy = record {
  aware = λ s p feeding. tt;
  aged = λ now s due t p. All-AnyKey (expired now s.conns);
  write = λ key c w e may t there grows p. p;
  add = λ key e may new p. p;
  forget = λ key c e t there is p. p;
  let_go = λ pkt e p. p;
  drop_packet = λ pkt key c e there is sent p. p;
  settle_flow = λ key hostname c e may t there is known p.
      (resolve_conn-mode policy key hostname c e is).1 ∙ p;
  make_space = λ e t p. (evict-IsSameLog e.max_blocked e).same_feeding ∙ p;
  clear = λ e ends p. p;
}
