-- ===== src/Extractor/Conserve/Settle.antt =====
-- Which flows are still waiting after `resolve`.
use packet_inspector.Base.{
  ℕ, ◌≡◌, ◌≢◌, refl, inl, inr, not, ◌&&◌, Option, none, some, List, [], ◌∷◌, arith, ◌==◌,
  Bool-cases, Option-cases, Bytes, get_or,
}
use packet_inspector.Packet.{Packet, Verdict, allow, block}
use packet_inspector.Extractor.Table.{find, erase, update}
use packet_inspector.Extractor.State.{
  FlowState, waiting, blocking, Conn, Extractor, is_blocking, block_conn,
}
use packet_inspector.Extractor.Ring.{publish, park, park_all, forget_blocked, remember_blocked}
use packet_inspector.Extractor.Callbacks.{defer_close, settle, resolve_conn, resolve}
use packet_inspector.Extractor.Conserve.Tables.{IsTidy, update-IsTidy, find-update_self}

module _ (k j : ℕ) {c : Conn} where
  pub find-erase-some :
      (m : List (ℕ × Conn)) → IsTidy m → find k (erase j m) ≡ some c → find k m ≡ some c
  unfolding find erase
  find-erase-some [] t e = e
  find-erase-some ((l, d) ∷ m) t e = elim (Bool-cases (l == j)) [
    | inl hit ↦ elim (Bool-cases (l == k)) [
      | inl own ↦ let same : l ≡ k = ground arith in let gone = rw same at t.1 in cc (rw hit at e)
      | inr other ↦ rw other (rw hit at e)
    ]
    | inr miss ↦ elim (Bool-cases (l == k)) [
      | inl own ↦ rw own (rw (miss, own) at e)
      | inr other ↦ rw other (find-erase-some m t.2 (rw (miss, other) at e))
    ]
  ]

pub find-erase_self : (k : ℕ) (m : List (ℕ × Conn)) → IsTidy m → find k (erase k m) ≡ none
unfolding find erase
find-erase_self k [] t = refl
find-erase_self k ((l, d) ∷ m) t = elim (Bool-cases (l == k)) [
  | inl hit ↦ let same : l ≡ k = ground arith in rw hit (rw same at t.1)
  | inr miss ↦ rw (miss, miss) (find-erase_self k m t.2)
]

pub find-update_other :
    (k j : ℕ) (w : Conn) (m : List (ℕ × Conn)) → k ≢ j → find k (update j w m) ≡ find k m
unfolding find update
find-update_other k j w [] ne = refl
find-update_other k j w ((l, d) ∷ m) ne = ground (arith, find-update_other k j w m ne)

-- A flow that stands in the second table stands in the first, as it is.
abbrev pub Shrinks : List (ℕ × Conn) → List (ℕ × Conn) → Type 0
Shrinks m m' = (k : ℕ) (c : Conn) → find k m' ≡ some c → find k m ≡ some c

-- Afterwards the flow is gone or blocked, and every other flow is gone or as it was.
pub record Settles (key : ℕ) (m m' : List (ℕ × Conn)) : Type 0 where
  pub settled : (c : Conn) → find key m' ≡ some c → c.state ≡ blocking
  pub others : (k : ℕ) (c : Conn) → k ≢ key → find k m' ≡ some c → find k m ≡ some c

module _ {ℓ} {R : Type ℓ} where
  pub park_all-conns :
      (pkts : List Packet) (v : Verdict) (e : Extractor R) → (park_all pkts v e).conns ≡ e.conns
  unfolding park_all park
  park_all-conns [] v e = refl
  park_all-conns (pkt ∷ pkts) v e = park_all-conns pkts v (park pkt v e)

  pub defer_close-conns : (c : Conn) (e : Extractor R) → (defer_close c e).conns ≡ e.conns
  unfolding defer_close
  defer_close-conns c e = elim (Bool-cases (not (c.pcpp_key == 0) && not c.pcpp_closed)) [
    | inl closes ↦ rw closes refl
    | inr done ↦ rw done refl
  ]

  pub forget_blocked-Shrinks :
      (victim : ℕ) (e : Extractor R)
      → IsTidy e.conns
      → Shrinks e.conns (forget_blocked victim e).conns
  unfolding forget_blocked publish
  forget_blocked-Shrinks victim e t k c h = elim (Bool-cases (is_blocking (find victim e.conns))) [
    | inl blocked ↦ find-erase-some k victim e.conns t (rw blocked at h)
    | inr other ↦ rw other at h
  ]

  pub remember_blocked-Shrinks :
      (key : ℕ) (e : Extractor R) → IsTidy e.conns → Shrinks e.conns (remember_blocked key e).conns
  unfolding remember_blocked
  remember_blocked-Shrinks key e t k c h =
      let victim = get_or e.block_ring e.block_next 0 in
      elim (Bool-cases (not (victim == 0) && not (victim == key))) [
        | inl other ↦ forget_blocked-Shrinks victim e t k c (rw other at h)
        | inr own ↦ rw own at h
      ]

  settle-Settles :
      (v : Verdict) (key : ℕ) (c : Conn) (e : Extractor R)
      → IsTidy e.conns
      → find key e.conns ≡ some c
      → Settles key e.conns (settle v key c e).conns
  unfolding settle
  settle-Settles allow key c e t there = record {
    settled = λ d h. cc (rw (find-erase_self key e.conns t) at h);
    others = λ k d ne h. find-erase-some k key e.conns t h;
  }
  settle-Settles block key c e t there =
      let blocked = record e { conns = update key (block_conn c) e.conns } in
      let shrinks =
        remember_blocked-Shrinks key blocked
          (update-IsTidy key (block_conn c) e.conns (λ _. refl) t) in
      record {
        settled = λ d h. is_blocked d (shrinks key d h);
        others =
            λ k d ne h. rw (find-update_other k key (block_conn c) e.conns ne) at (shrinks k d h);
      }
    where
      is_blocked :
          (d : Conn) → find key (update key (block_conn c) e.conns) ≡ some d → d.state ≡ blocking
      is_blocked d h =
          let same = rw (find-update_self key (block_conn c) e.conns there) at h in ground arith

module _ {ℓ} {R : Type ℓ} (policy : Option Bytes → Verdict) where
  resolve_conn-Settles :
      (state : FlowState) (key : ℕ) (hostname : Option Bytes) (c : Conn) (e : Extractor R)
      → c.state ≡ state
      → IsTidy e.conns
      → find key e.conns ≡ some c
      → Settles key e.conns (resolve_conn policy key hostname c e).conns
  unfolding resolve_conn
  resolve_conn-Settles blocking key hostname c e is t there =
      rw (is, resolve_conn) (record { settled = λ d h. ground arith; others = λ k d ne h. h })
  resolve_conn-Settles waiting key hostname c e is t there =
      let v = policy hostname in
      let settled_e = settle v key c e in
      rw
        (
          is,
          resolve_conn,
          park_all-conns c.held v (defer_close c settled_e),
          defer_close-conns c settled_e,
        )
        (settle-Settles v key c e t there)

  pub resolve-Settles :
      (key : ℕ) (hostname : Option Bytes) (e : Extractor R)
      → IsTidy e.conns
      → Settles key e.conns (resolve policy key hostname e).conns
  unfolding resolve
  resolve-Settles key hostname e t = elim (Option-cases (find key e.conns)) [
    | inl missing ↦ rw (missing, resolve) (record { settled = λ d h. cc; others = λ k d ne h. h })
    | inr (c, there) ↦
        rw (there, resolve) (resolve_conn-Settles c.state key hostname c e refl t there)
  ]
