-- ===== src/Extractor/Stable/Callbacks.antt =====
-- `resolve` and the callbacks keep a stable predicate.
use packet_inspector.Base.{
  ℕ, ◌≡◌, refl, inl, inr, true, not, ◌||◌, Option, none, some, List, [], ◌∷◌, ◌++◌, arith, ltb,
  ◌==◌, Bool-cases, Option-cases, Bytes, length, All,
}
use packet_inspector.Packet.{Verdict}
use packet_inspector.Tls.Records.{HostnameResult, found, not_found, need_more}
use packet_inspector.Extractor.Table.{find, update}
use packet_inspector.Extractor.State.{
  FlowState, waiting, blocking, Conn, Event, connection_start, message_ready, connection_end,
  Extractor, max_stream_bytes,
}
use packet_inspector.Extractor.Callbacks.{
  hostname_in, resolve_conn, resolve, on_connection_start, act_on, on_client_data, on_message_ready,
  on_connection_end, dispatch, dispatch_all,
}
use packet_inspector.Extractor.Conserve.Tables.{
  IsTidy, find-IsTidy, find-update_self, update-IsTidy,
}
use packet_inspector.Extractor.Conserve.Callbacks.{dispatch-Kept}
use packet_inspector.Extractor.Stable.{Core, core, Learned, more, Grows, IsStable, Scope, Hearable}

module _ {ℓ ι σ κ} {R : Type ℓ} (policy : Option Bytes → Verdict) {Heard : ℕ → Bytes → Type ι}
    {Sent : ℕ → ℕ → Type σ} {scope : Scope} {P : Core → Type κ}
    (stable : IsStable R policy Heard Sent scope P) where
  same-Grows :
      (key : ℕ) (c w : Conn)
      → w.state ≡ c.state
      → w.stream ≡ c.stream
      → w.held ≡ c.held
      → Grows Heard Sent key c w
  same-Grows key c w state stream held = record {
    same_state = state;
    stream_grows = λ s. rw stream s;
    held_grows = λ h. rw held h;
  }

  resolve_conn-keeps :
      (state : FlowState) (key : ℕ) (hostname : Option Bytes) (c : Conn) (e : Extractor R)
      → c.state ≡ state
      → scope.may key
      → IsTidy e.conns
      → find key e.conns ≡ some c
      → Learned c hostname
      → P (core e)
      → P (core (resolve_conn policy key hostname c e))
  unfolding resolve_conn
  resolve_conn-keeps blocking key hostname c e is may t there known p = rw (is, resolve_conn) p
  resolve_conn-keeps waiting key hostname c e is may t there known p =
      stable.settle_flow key hostname c e may t there is known p

  pub resolve-keeps :
      (key : ℕ) (e : Extractor R)
      → scope.may key
      → IsTidy e.conns
      → P (core e)
      → P (core (resolve policy key none e))
  unfolding resolve
  resolve-keeps key e may t p = elim (Option-cases (find key e.conns)) [
    | inl missing ↦ rw (missing, resolve) p
    | inr (c, there) ↦
        rw (there, resolve) (resolve_conn-keeps c.state key none c e refl may t there tt p)
  ]

  resolve_found-keeps :
      (key : ℕ) (host : Bytes) (c : Conn) (e : Extractor R)
      → scope.may key
      → IsTidy e.conns
      → find key e.conns ≡ some c
      → hostname_in c.stream ≡ found host
      → P (core e)
      → P (core (resolve policy key (some host) e))
  unfolding resolve
  resolve_found-keeps key host c e may t there known p =
      rw (there, resolve) (resolve_conn-keeps c.state key (some host) c e refl may t there known p)

  on_connection_start-keeps :
      (flow_key : ℕ) (e : Extractor R)
      → IsTidy e.conns
      → P (core e)
      → P (core (on_connection_start policy flow_key e))
  unfolding on_connection_start
  on_connection_start-keeps flow_key e t p = elim (Bool-cases (not e.feeding)) [
    | inl idle ↦ rw idle p
    | inr busy ↦ rw busy (elim (Option-cases (find e.current_key e.conns)) [
      | inl missing ↦ rw (missing, on_connection_start) p
      | inr (c, there) ↦
          rw (there, on_connection_start)
            (stable.write e.current_key c _ e (stable.aware (core e) p (ground arith)) t there
              (same-Grows e.current_key c _ refl refl refl) p)
    ])
  ]

  act_on-keeps :
      (r : HostnameResult) (key : ℕ) (c : Conn) (e : Extractor R)
      → scope.may key
      → IsTidy e.conns
      → find key e.conns ≡ some c
      → hostname_in c.stream ≡ r
      → P (core e)
      → P (core (act_on policy r key c.stream e))
  unfolding act_on
  act_on-keeps (found host) key c e may t there is p =
      resolve_found-keeps key host c e may t there is p
  act_on-keeps not_found key c e may t there is p = resolve-keeps key e may t p
  act_on-keeps need_more key c e may t there is p =
      elim (Bool-cases (ltb max_stream_bytes (length c.stream))) [
        | inl over ↦ rw over (resolve-keeps key e may t p)
        | inr fits ↦ rw fits p
      ]

  on_client_data-keeps :
      (state : FlowState) (flow_key : ℕ) (bytes : Bytes) (c : Conn) (e : Extractor R)
      → c.state ≡ state
      → scope.may e.current_key
      → IsTidy e.conns
      → find e.current_key e.conns ≡ some c
      → Heard e.current_key bytes
      → P (core e)
      → P (core (on_client_data policy flow_key bytes c e))
  unfolding on_client_data
  on_client_data-keeps blocking flow_key bytes c e is may t there heard p =
      rw (is, on_client_data) p
  on_client_data-keeps waiting flow_key bytes c e is may t there heard p =
      let w = record c { pcpp_key = flow_key; stream = c.stream ++ bytes } in
      let e' = record e { conns = update e.current_key w e.conns } in
      let t' =
        update-IsTidy e.current_key w e.conns (find-IsTidy e.current_key e.conns there t) t in
      rw (is, on_client_data)
        (act_on-keeps (hostname_in w.stream) e.current_key w e' may t'
          (find-update_self e.current_key w e.conns there) refl
          (stable.write e.current_key c w e may t there
            (record {
              same_state = refl;
              stream_grows = λ s. more bytes s heard;
              held_grows = λ h. h;
            })
            p))

  on_message_ready-keeps :
      (side flow_key : ℕ) (bytes : Bytes) (e : Extractor R)
      → IsTidy e.conns
      → (e.feeding ≡ true → side ≡ 0 → Heard e.current_key bytes)
      → P (core e)
      → P (core (on_message_ready policy side flow_key bytes e))
  unfolding on_message_ready
  on_message_ready-keeps side flow_key bytes e t hears p =
      elim (Bool-cases (not e.feeding || not (side == 0))) [
        | inl ignored ↦ rw ignored p
        | inr client ↦ rw client (elim (Option-cases (find e.current_key e.conns)) [
          | inl missing ↦ rw (missing, on_message_ready) p
          | inr (c, there) ↦
              rw (there, on_message_ready)
                (on_client_data-keeps c.state flow_key bytes c e refl
                  (stable.aware (core e) p (ground arith)) t there
                  (hears (ground arith) (ground arith)) p)
        ])
      ]

  on_connection_end-keeps :
      (e : Extractor R) → IsTidy e.conns → P (core e) → P (core (on_connection_end policy e))
  unfolding on_connection_end
  on_connection_end-keeps e t p = elim (Bool-cases (not e.feeding)) [
    | inl idle ↦ rw idle p
    | inr busy ↦ rw busy (elim (Option-cases (find e.current_key e.conns)) [
      | inl missing ↦ rw (missing, on_connection_end) p
      | inr (c, there) ↦
          let may = stable.aware (core e) p (ground arith) in
          let w = record c { pcpp_closed = true } in
          let t' =
            update-IsTidy e.current_key w e.conns (find-IsTidy e.current_key e.conns there t) t in
          rw (there, on_connection_end)
            (resolve-keeps e.current_key _ may t' (
              stable.write e.current_key c w e may t there
                (same-Grows e.current_key c w refl refl refl) p))
    ])
  ]

  dispatch-keeps :
      (x : Event) (e : Extractor R)
      → IsTidy e.conns
      → Hearable Heard P x
      → P (core e)
      → P (core (dispatch policy x e))
  unfolding dispatch
  dispatch-keeps (connection_start flow_key) e t hears p = on_connection_start-keeps flow_key e t p
  dispatch-keeps (message_ready side flow_key bytes) e t hears p =
      on_message_ready-keeps side flow_key bytes e t (hears (core e) p) p
  dispatch-keeps connection_end e t hears p = on_connection_end-keeps e t p

  pub dispatch_all-keeps :
      (xs : List Event) (e : Extractor R)
      → IsTidy e.conns
      → All (Hearable Heard P) xs
      → P (core e)
      → P (core (dispatch_all policy xs e))
  unfolding dispatch_all
  dispatch_all-keeps [] e t hears p = p
  dispatch_all-keeps (x ∷ xs) e t hears p =
      dispatch_all-keeps xs (dispatch policy x e) (dispatch-Kept policy 0 x e t).tidy hears.1
        (dispatch-keeps x e t hears.0 p)
