-- ===== src/Extractor/Followed/Settled.antt =====
-- A flow that is settled, under the callbacks that still come for it.
use packet_inspector.Base.{
  ℕ, ◌≡◌, refl, sym, ◌∙◌, subst, inl, inr, ◌⊎◌, true, not, ◌||◌, Option, none, some, List, [], ◌∷◌,
  ◌++◌, arith, ◌==◌, Bool-cases, Bytes,
}
use packet_inspector.Packet.{Verdict, allow, block}
use packet_inspector.Extractor.Table.{find, update}
use packet_inspector.Extractor.State.{
  waiting, blocking, Conn, Decided, Event, connection_start, message_ready, connection_end,
  Extractor, block_conn,
}
use packet_inspector.Extractor.Callbacks.{
  resolve_conn, resolve, on_connection_start, on_client_data, on_message_ready, on_connection_end,
  dispatch, dispatch_all,
}
use packet_inspector.Extractor.Conserve.Tables.{IsTidy, find-update_self}
use packet_inspector.Extractor.Resolved.{decided_with, left_of, resolve-decides}
use packet_inspector.Extractor.Idle.{resolve_conn-mode}
use packet_inspector.Extractor.Followed.{IsLeft}

pub left_of-IsLeft :
    (v : Verdict) (c : Conn) (key : ℕ) (m : List (ℕ × Conn))
    → find key m ≡ left_of v c
    → IsLeft v key m
left_of-IsLeft allow c key m h = h
left_of-IsLeft block c key m h = (block_conn c, h, refl)

module _ {ℓ} {R : Type ℓ} (policy : Option Bytes → Verdict) where
  resolve-blocked :
      (key : ℕ) (c : Conn) (e : Extractor R)
      → find key e.conns ≡ some c
      → c.state ≡ blocking
      → resolve policy key none e ≡ e
  unfolding resolve resolve_conn
  resolve-blocked key c e there is = rw (there, resolve) (simp (is, resolve_conn) refl)

  pub end_busy :
      (c : Conn) (e : Extractor R)
      → e.feeding ≡ true
      → find e.current_key e.conns ≡ some c
      → dispatch policy connection_end e
        ≡ resolve policy e.current_key none
            (record e { conns = update e.current_key (record c { pcpp_closed = true }) e.conns })
  unfolding dispatch on_connection_end
  end_busy c e busy there = elim (Bool-cases (not e.feeding)) [
    | inl idle ↦ absurd (ground arith)
    | inr feeds ↦ rw feeds (rw (there, on_connection_end) refl)
  ]

  pub start_busy :
      (flow_key : ℕ) (c : Conn) (e : Extractor R)
      → e.feeding ≡ true
      → find e.current_key e.conns ≡ some c
      → dispatch policy (connection_start flow_key) e
        ≡ record e { conns = update e.current_key (record c { pcpp_key = flow_key }) e.conns }
  unfolding dispatch on_connection_start
  start_busy flow_key c e busy there = elim (Bool-cases (not e.feeding)) [
    | inl idle ↦ absurd (ground arith)
    | inr feeds ↦ rw feeds (rw (there, on_connection_start) refl)
  ]

  dispatch-blocked :
      (x : Event) (c : Conn) (e : Extractor R)
      → e.feeding ≡ true
      → find e.current_key e.conns ≡ some c
      → c.state ≡ blocking
      → (w : Conn) × (w.state ≡ blocking)
        × ((dispatch policy x e ≡ e)
            ⊎ (dispatch policy x e ≡ record e { conns = update e.current_key w e.conns }))
  unfolding dispatch on_message_ready on_client_data
  dispatch-blocked (connection_start flow_key) c e busy there is =
      (record c { pcpp_key = flow_key }, is, inr (start_busy flow_key c e busy there))
  dispatch-blocked (message_ready side flow_key bytes) c e busy there is = (
    c,
    is,
    inl (elim (Bool-cases (side == 0)) [
      | inl client ↦ simp (busy, client, there, on_message_ready, is, on_client_data) refl
      | inr server ↦ simp (busy, server) refl
    ]),
  )
  dispatch-blocked connection_end c e busy there is =
      let w = record c { pcpp_closed = true } in
      let now = find-update_self e.current_key w e.conns there in
      let e' = record e { conns = update e.current_key w e.conns } in
      (w, is, inr (end_busy c e busy there ∙ resolve-blocked e.current_key w e' now is))

  dispatch-none :
      (x : Event) (e : Extractor R) → find e.current_key e.conns ≡ none → dispatch policy x e ≡ e
  unfolding dispatch on_connection_start on_message_ready on_connection_end
  dispatch-none (connection_start flow_key) e gone = elim (Bool-cases (not e.feeding)) [
    | inl idle ↦ rw idle refl
    | inr busy ↦ rw busy (rw (gone, on_connection_start) refl)
  ]
  dispatch-none (message_ready side flow_key bytes) e gone =
      elim (Bool-cases (not e.feeding || not (side == 0))) [
        | inl ignored ↦ rw ignored refl
        | inr client ↦ rw client (rw (gone, on_message_ready) refl)
      ]
  dispatch-none connection_end e gone = elim (Bool-cases (not e.feeding)) [
    | inl idle ↦ rw idle refl
    | inr busy ↦ rw busy (rw (gone, on_connection_end) refl)
  ]

  -- The flow that is being fed is settled, at the verdicts `ds`.
  pub record IsDone (v : Verdict) (key : ℕ) (ds : List Decided) (f : Extractor R) : Type 0 where
    pub left : IsLeft v key f.conns
    pub same_decided : f.decided ≡ ds
    pub same_key : f.current_key ≡ key
    pub still_feeding : f.feeding ≡ true

  -- A flow that is settled is not settled again.
  dispatch-IsDone :
      (v : Verdict) (key : ℕ) (ds : List Decided) (x : Event) (e : Extractor R)
      → IsDone v key ds e
      → IsDone v key ds (dispatch policy x e)
  dispatch-IsDone allow key ds x e d = rw (dispatch-none x e (simp d.same_key d.left)) d
  dispatch-IsDone block key ds x e d =
      let (c, there, is) = d.left in
      let here = subst (λ k. find k e.conns ≡ some c) (sym d.same_key) there in
      let (w, still, cases) = dispatch-blocked x c e d.still_feeding here is in
      elim cases [
        | inl same ↦ rw same d
        | inr next ↦ rw next (record {
          left = (
            w,
            subst (λ k. find k (update e.current_key w e.conns) ≡ some w) d.same_key
                (find-update_self e.current_key w e.conns here),
            still,
          );
          same_decided = d.same_decided;
          same_key = d.same_key;
          still_feeding = d.still_feeding;
        })
      ]

  pub dispatch_all-IsDone :
      (v : Verdict) (key : ℕ) (ds : List Decided) (xs : List Event) (e : Extractor R)
      → IsDone v key ds e
      → IsDone v key ds (dispatch_all policy xs e)
  unfolding dispatch_all
  dispatch_all-IsDone v key ds [] e d = d
  dispatch_all-IsDone v key ds (x ∷ xs) e d =
      dispatch_all-IsDone v key ds xs (dispatch policy x e) (dispatch-IsDone v key ds x e d)

  pub resolve-IsDone :
      (hostname : Option Bytes) (c : Conn) (e : Extractor R)
      → IsTidy e.conns
      → e.feeding ≡ true
      → find e.current_key e.conns ≡ some c
      → c.state ≡ waiting
      → IsDone
          (policy hostname)
          e.current_key
          (e.decided ++ decided_with (policy hostname) c.held)
          (resolve policy e.current_key hostname e)
  unfolding resolve
  resolve-IsDone hostname c e t busy there is =
      let d = resolve-decides policy e.current_key hostname c e t there is in
      let m = resolve_conn-mode policy e.current_key hostname c e is in
      record {
        left = left_of-IsLeft (policy hostname) c e.current_key _ d.1;
        same_decided = d.0;
        same_key = rw (there, resolve) m.0;
        still_feeding = rw (there, resolve) (m.1 ∙ busy);
      }
