-- ===== src/Extractor/Resolved.antt =====
-- What `resolve` of src/hostname_extractor.cpp does to the flow and to the packets that it holds.
use packet_inspector.Base.{
  ℕ, ◌≡◌, ◌≢◌, refl, sym, ◌∙◌, inl, inr, not, ◌&&◌, Option, none, some, List, [], ◌∷◌, ◌++◌, arith,
  append_assoc, append-nil, ◌==◌, Bool-cases, Bytes, get_or,
}
use packet_inspector.Packet.{Packet, Verdict, allow, block}
use packet_inspector.Extractor.Table.{find, erase, update}
use packet_inspector.Extractor.State.{waiting, Conn, Decided, Extractor, is_blocking, block_conn}
use packet_inspector.Extractor.Ring.{publish, park, park_all, forget_blocked, remember_blocked}
use packet_inspector.Extractor.Callbacks.{defer_close, settle, resolve_conn, resolve}
use packet_inspector.Extractor.Conserve.Tables.{IsTidy, find-update_self}
use packet_inspector.Extractor.Conserve.Settle.{find-erase_self, park_all-conns, defer_close-conns}

-- The packets with the verdict, in order.
abbrev pub decided_with : Verdict → List Packet → List Decided
decided_with v [] = []
decided_with v (pkt ∷ pkts) = record { pkt = pkt; verdict = v } ∷ decided_with v pkts

-- What is left of a flow.
abbrev pub left_of : Verdict → Conn → Option Conn
left_of allow c = none
left_of block c = some (block_conn c)

pub find-erase_other : (k j : ℕ) (m : List (ℕ × Conn)) → k ≢ j → find k (erase j m) ≡ find k m
unfolding find erase
find-erase_other k j [] ne = refl
find-erase_other k j ((l, d) ∷ m) ne = ground (arith, find-erase_other k j m ne)

module _ {ℓ} {R : Type ℓ} where
  park_all-decided :
      (pkts : List Packet) (v : Verdict) (e : Extractor R)
      → (park_all pkts v e).decided ≡ e.decided ++ decided_with v pkts
  unfolding park_all park
  park_all-decided [] v e = sym (append-nil e.decided)
  park_all-decided (pkt ∷ pkts) v e =
      park_all-decided pkts v (park pkt v e) ∙ append_assoc e.decided _ _

  defer_close-decided : (c : Conn) (e : Extractor R) → (defer_close c e).decided ≡ e.decided
  unfolding defer_close
  defer_close-decided c e = elim (Bool-cases (not (c.pcpp_key == 0) && not c.pcpp_closed)) [
    | inl closes ↦ rw closes refl
    | inr done ↦ rw done refl
  ]

  forget_blocked-decided :
      (victim : ℕ) (e : Extractor R) → (forget_blocked victim e).decided ≡ e.decided
  unfolding forget_blocked publish
  forget_blocked-decided victim e = elim (Bool-cases (is_blocking (find victim e.conns))) [
    | inl blocked ↦ rw blocked refl
    | inr other ↦ rw other refl
  ]

  forget_blocked_other :
      (victim key : ℕ) (e : Extractor R)
      → key ≢ victim
      → find key (forget_blocked victim e).conns ≡ find key e.conns
  unfolding forget_blocked publish
  forget_blocked_other victim key e ne = elim (Bool-cases (is_blocking (find victim e.conns))) [
    | inl blocked ↦ rw blocked (find-erase_other key victim e.conns ne)
    | inr other ↦ rw other refl
  ]

  -- The decided packets are the same, and so is the flow that is remembered.
  remember_blocked_lem :
      (key : ℕ) (e : Extractor R)
      → ((remember_blocked key e).decided ≡ e.decided)
        × (find key (remember_blocked key e).conns ≡ find key e.conns)
  unfolding remember_blocked
  remember_blocked_lem key e =
      let victim = get_or e.block_ring e.block_next 0 in
      elim (Bool-cases (not (victim == 0) && not (victim == key))) [
        | inl other ↦
            let ne : key ≢ victim = λ z. ground arith in
            rw other (forget_blocked-decided victim e, forget_blocked_other victim key e ne)
        | inr own ↦ rw own (refl, refl)
      ]

  settle_lem :
      (v : Verdict) (key : ℕ) (c : Conn) (e : Extractor R)
      → IsTidy e.conns
      → find key e.conns ≡ some c
      → ((settle v key c e).decided ≡ e.decided) × (find key (settle v key c e).conns ≡ left_of v c)
  unfolding settle
  settle_lem allow key c e t there = (refl, find-erase_self key e.conns t)
  settle_lem block key c e t there =
      let r = remember_blocked_lem key (record e { conns = update key (block_conn c) e.conns }) in
      (r.0, r.1 ∙ find-update_self key (block_conn c) e.conns there)

  -- For a flow that is waiting, on a table in which blocked flows hold nothing and no key stands twice:
  -- `resolve` decides the packets that the flow holds, each once and in the order in which they came,
  -- behind those decided before, all with the policy's verdict on the hostname; then the flow is gone
  -- if they are let through, and else it is blocked, with nothing held and no stream.
  pub resolve-decides :
      (policy : Option Bytes → Verdict) (key : ℕ) (hostname : Option Bytes) (c : Conn)
      (e : Extractor R)
      → IsTidy e.conns
      → find key e.conns ≡ some c
      → c.state ≡ waiting
      → ((resolve policy key hostname e).decided
          ≡ e.decided ++ decided_with (policy hostname) c.held)
        × (find key (resolve policy key hostname e).conns ≡ left_of (policy hostname) c)
  unfolding resolve resolve_conn
  resolve-decides policy key hostname c e t there is =
      let v = policy hostname in
      let settled_e = settle v key c e in
      let s = settle_lem v key c e t there in
      let closed = defer_close c settled_e in
      simp
        (
          there,
          resolve,
          is,
          resolve_conn,
          park_all-decided c.held v closed,
          park_all-conns c.held v closed,
          defer_close-decided c settled_e,
          defer_close-conns c settled_e,
          s.0,
          s.1,
        )
        (refl, refl)
