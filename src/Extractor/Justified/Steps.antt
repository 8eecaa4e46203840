-- ===== src/Extractor/Justified/Steps.antt =====
-- Each step of the extractor keeps its verdicts justified.
use packet_inspector.Base.{
  ℕ, ◌≡◌, ◌≢◌, refl, sym, ◌∙◌, inl, inr, not, ◌&&◌, Option, none, some, List, [], ◌∷◌, arith, ◌==◌,
  Bool-cases, Bytes, subst, All, All-append,
}
use packet_inspector.Packet.{Packet, Verdict, allow, block}
use packet_inspector.Extractor.Table.{find, erase, update, insert}
use packet_inspector.Extractor.State.{Conn, new_conn, Extractor, block_conn}
use packet_inspector.Extractor.Ring.{park, park_all, remember_blocked, evict, evict_oldest_blocked}
use packet_inspector.Extractor.Callbacks.{defer_close, settle, resolve_conn}
use packet_inspector.Extractor.Conserve.Tables.{IsTidy, update-IsTidy, find-update_self}
use packet_inspector.Extractor.Conserve.Settle.{
  Shrinks, find-erase-some, find-update_other, remember_blocked-Shrinks,
}
use packet_inspector.Extractor.Stable.{
  core, nothing, AllSent, Grows, Learned, IsStable, IsGuarded, everything, All-AnyKey,
}
use packet_inspector.Extractor.Feed.{expired}
use packet_inspector.Extractor.Justified.{IsGuilty, IsJustConn, IsCondemned, IsJust}
use packet_inspector.Extractor.Justified.Log.{
  IsSameLog, remember_blocked-IsSameLog, evict-IsSameLog, evict-Shrinks, same-IsMode,
}

module _ {ι σ} (policy : Option Bytes → Verdict) {Heard : ℕ → Bytes → Type ι}
    {Sent : ℕ → ℕ → Type σ} where
  guilt_of :
      (hostname : Option Bytes) (key : ℕ) (c : Conn)
      → policy none ≡ allow
      → Learned c hostname
      → IsJustConn policy Heard Sent key c
      → policy hostname ≡ block
      → IsGuilty policy Heard Sent key
  guilt_of none key c lenient known just is = absurd (ground arith)
  guilt_of (some host) key c lenient known just is = record {
    stream = c.stream;
    host = host;
    assembled = just.assembled;
    named = known;
    blocked = is;
  }

  All-IsCondemned :
      (key : ℕ) (v : Verdict) (pkts : List Packet)
      → (v ≡ block → IsGuilty policy Heard Sent key)
      → AllSent Sent key pkts
      → All (λ pkt. v ≡ block → IsCondemned policy Heard Sent pkt.id) pkts
  All-IsCondemned key v [] guilt sent = tt
  All-IsCondemned key v (pkt ∷ pkts) guilt sent = (
    (λ is. record { key = key; sent = sent.0; guilty = guilt is }),
    All-IsCondemned key v pkts guilt sent.1,
  )

module _ {ℓ ι σ} {R : Type ℓ} (policy : Option Bytes → Verdict) {Heard : ℕ → Bytes → Type ι}
    {Sent : ℕ → ℕ → Type σ} (mode : Option ℕ) where
  shrink-IsJust :
      (e f : Extractor R)
      → IsSameLog e f
      → Shrinks e.conns f.conns
      → IsJust policy Heard Sent mode (core e)
      → IsJust policy Heard Sent mode (core f)
  shrink-IsJust e f s shrinks p = record {
    verdicts = rw s.same_decided p.verdicts;
    flows = λ k c h. p.flows k c (shrinks k c h);
    in_mode = same-IsMode mode e f s.same_key s.same_feeding p.in_mode;
  }

  change-IsJust :
      (key : ℕ) (w : Conn) (e : Extractor R)
      → find key (update key w e.conns) ≡ some w
      → IsJustConn policy Heard Sent key w
      → IsJust policy Heard Sent mode (core e)
      → IsJust policy Heard Sent mode (core (record e { conns = update key w e.conns }))
  change-IsJust key w e now just p = record {
    verdicts = p.verdicts;
    flows = λ k c h. elim (Bool-cases (k == key)) [
      | inl hit ↦
          let own : k ≡ key = ground arith in
          let is_w : some w ≡ some c = sym now ∙ (rw own at h) in
          let same : w ≡ c = ground arith in
          subst (λ x. IsJustConn policy Heard Sent x c) (sym own)
            (subst (IsJustConn policy Heard Sent key) same just)
      | inr miss ↦
          let ne : k ≢ key = λ z. ground arith in
          p.flows k c (rw (find-update_other k key w e.conns ne) at h)
    ];
    in_mode = same-IsMode mode e (record e { conns = update key w e.conns }) refl refl p.in_mode;
  }

  park_all-IsJust :
      (pkts : List Packet) (v : Verdict) (e : Extractor R)
      → All (λ pkt. v ≡ block → IsCondemned policy Heard Sent pkt.id) pkts
      → IsJust policy Heard Sent mode (core e)
      → IsJust policy Heard Sent mode (core (park_all pkts v e))
  unfolding park_all park
  park_all-IsJust [] v e just p = p
  park_all-IsJust (pkt ∷ pkts) v e just p = park_all-IsJust pkts v (park pkt v e) just.1 (record {
    verdicts =
        All-append (λ d. d.verdict ≡ block → IsCondemned policy Heard Sent d.pkt.id) e.decided _
          p.verdicts (just.0, tt);
    flows = p.flows;
    in_mode = same-IsMode mode e (park pkt v e) refl refl p.in_mode;
  })

  settle-IsJust :
      (v : Verdict) (key : ℕ) (c : Conn) (e : Extractor R)
      → IsTidy e.conns
      → find key e.conns ≡ some c
      → (v ≡ block → IsGuilty policy Heard Sent key)
      → IsJust policy Heard Sent mode (core e)
      → IsJust policy Heard Sent mode (core (settle v key c e))
  unfolding settle
  settle-IsJust allow key c e t there guilt p =
      shrink-IsJust e (record e { conns = erase key e.conns })
        (record { same_decided = refl; same_key = refl; same_feeding = refl })
        (λ k d h. find-erase-some k key e.conns t h) p
  settle-IsJust block key c e t there guilt p =
      let w = block_conn c in
      let blocked = record e { conns = update key w e.conns } in
      shrink-IsJust blocked (remember_blocked key blocked) (remember_blocked-IsSameLog key blocked)
        (remember_blocked-Shrinks key blocked (update-IsTidy key w e.conns (λ _. refl) t))
        (change-IsJust key w e (find-update_self key w e.conns there)
          (record { assembled = nothing; sent = tt; guilty = λ _. guilt refl }) p)

  defer_close-IsJust :
      (c : Conn) (e : Extractor R)
      → IsJust policy Heard Sent mode (core e)
      → IsJust policy Heard Sent mode (core (defer_close c e))
  unfolding defer_close
  defer_close-IsJust c e p = elim (Bool-cases (not (c.pcpp_key == 0) && not c.pcpp_closed)) [
    | inl closes ↦ rw closes p
    | inr done ↦ rw done p
  ]

  write-IsJust :
      (key : ℕ) (c w : Conn) (e : Extractor R)
      → find key e.conns ≡ some c
      → Grows Heard Sent key c w
      → IsJust policy Heard Sent mode (core e)
      → IsJust policy Heard Sent mode (core (record e { conns = update key w e.conns }))
  write-IsJust key c w e there grows p =
      let just = p.flows key c there in
      change-IsJust key w e (find-update_self key w e.conns there)
        (record {
          assembled = grows.stream_grows just.assembled;
          sent = grows.held_grows just.sent;
          guilty = λ is. just.guilty (sym grows.same_state ∙ is);
        })
        p

  insert-IsJust :
      (key : ℕ) (e : Extractor R)
      → IsJust policy Heard Sent mode (core e)
      → IsJust policy Heard Sent mode (core (record e { conns = insert key new_conn e.conns }))
  unfolding insert find
  insert-IsJust key e p = record {
    verdicts = p.verdicts;
    flows = λ k c h. elim (Bool-cases (key == k)) [
      | inl hit ↦
          let new : some new_conn ≡ some c = rw hit at h in
          let same : new_conn ≡ c = ground arith in
          subst (λ x. IsJustConn policy Heard Sent k x) same
            (record { assembled = nothing; sent = tt; guilty = λ is. absurd (ground arith) })
      | inr miss ↦ p.flows k c (rw miss at h)
    ];
    in_mode =
        same-IsMode mode e (record e { conns = insert key new_conn e.conns }) refl refl p.in_mode;
  }

  -- Provided that a flow without a hostname is let through.
  IsJust-IsStable :
      policy none ≡ allow → IsStable R policy Heard Sent everything (IsJust policy Heard Sent mode)
  unfolding evict_oldest_blocked resolve_conn park find park_all
  IsJust-IsStable lenient = record {
    aware = λ s p feeding. tt;
    aged = λ now s due t p. All-AnyKey (expired now s.conns);
    write = λ key c w e may t there grows p. write-IsJust key c w e there grows p;
    add = λ key e may new p. insert-IsJust key e p;
    forget = λ key c e t there is p.
        shrink-IsJust e (record e { conns = erase key e.conns })
          (record { same_decided = refl; same_key = refl; same_feeding = refl })
          (λ k d h. find-erase-some k key e.conns t h) p;
    let_go = λ pkt e p. park_all-IsJust (pkt ∷ []) allow e ((λ is. absurd (ground arith)), tt) p;
    drop_packet = λ pkt key c e there is sent p.
        park_all-IsJust (pkt ∷ []) block e
          (All-IsCondemned policy key block (pkt ∷ []) (λ _. (p.flows key c there).guilty is)
            (sent, tt))
          p;
    settle_flow = λ key hostname c e may t there is known p.
        let just = p.flows key c there in
        let v = policy hostname in
        let guilt = guilt_of policy hostname key c lenient known just in
        let settled_e = settle v key c e in
        rw (is, resolve_conn)
          (park_all-IsJust c.held v (defer_close c settled_e)
            (All-IsCondemned policy key v c.held guilt just.sent)
            (defer_close-IsJust c settled_e (settle-IsJust v key c e t there guilt p)));
    make_space = λ e t p.
        shrink-IsJust e (evict e.max_blocked e).0 (evict-IsSameLog e.max_blocked e)
          (evict-Shrinks e.max_blocked e t) p;
    clear = λ e ends p. record {
      verdicts = p.verdicts;
      flows = λ k c h. absurd (ground arith);
      in_mode = same-IsMode mode e (record e { conns = [] }) refl refl p.in_mode;
    };
  }

pub IsJust-IsGuarded {ℓ ι σ} :
    {R : Type ℓ} (policy : Option Bytes → Verdict) (Heard : ℕ → Bytes → Type ι)
    (Sent : ℕ → ℕ → Type σ)
    → policy none ≡ allow
    → IsGuarded R policy Heard Sent everything (IsJust policy Heard Sent)
IsJust-IsGuarded policy Heard Sent lenient = record {
  stable = λ mode. IsJust-IsStable policy mode lenient;
  enter = λ key e may p. record { verdicts = p.verdicts; flows = p.flows; in_mode = refl };
  leave = λ key e p. record { verdicts = p.verdicts; flows = p.flows; in_mode = refl };
  deaf = λ s bytes p feeding. absurd (let off = p.in_mode in ground arith);
  tuned = λ key s bytes p heard. rw p.in_mode heard;
}
