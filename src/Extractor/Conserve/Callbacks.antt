-- ===== src/Extractor/Conserve/Callbacks.antt =====
-- The packets under `resolve` and the callbacks.
use packet_inspector.Base.{
  ℕ, ◌+◌, ◌≤◌, ◌≡◌, refl, ◌∙◌, inl, inr, true, not, ◌&&◌, ◌||◌, Option, none, some, List, [], ◌∷◌,
  ◌++◌, arith, ltb, ◌==◌, Bool-cases, Option-cases, Bytes, length,
}
use packet_inspector.Packet.{Verdict, allow, block}
use packet_inspector.Tls.Records.{HostnameResult, found, not_found, need_more}
use packet_inspector.Extractor.Table.{find, update}
use packet_inspector.Extractor.State.{
  FlowState, waiting, blocking, Conn, Event, connection_start, message_ready, connection_end,
  Extractor, block_conn, max_stream_bytes,
}
use packet_inspector.Extractor.Ring.{park_all}
use packet_inspector.Extractor.Callbacks.{
  defer_close, settle, resolve_conn, resolve, on_connection_start, act_on, on_client_data,
  on_message_ready, on_connection_end, dispatch, dispatch_all,
}
use packet_inspector.Extractor.Conserve.Tables.{
  count_packets, times, IsTidy, count_held-erase, count_held-update, length-erase-le, length-update,
  erase-IsTidy, find-erase-none, find-update-none, update-IsTidy, find-IsTidy,
}
use packet_inspector.Extractor.Conserve.Steps.{
  Kept, Kept-refl, Kept-then, park_all-Kept, update-Kept, remember_blocked-Kept,
}

module _ {ℓ} {R : Type ℓ} (i : ℕ) where
  -- The entry's packets have left the table, and nothing else has.
  record Settled (c : Conn) (e e' : Extractor R) : Type 0 where
    tidy : IsTidy e'.conns
    times_are : count_packets i c.held + times i e' ≡ times i e
    no_more : length e'.conns ≤ length e.conns
    same_cap : e'.max_flows ≡ e.max_flows
    still_new : (k : ℕ) → find k e.conns ≡ none → find k e'.conns ≡ none

  settle-Settled :
      (v : Verdict) (key : ℕ) (c : Conn) (e : Extractor R)
      → IsTidy e.conns
      → find key e.conns ≡ some c
      → Settled c e (settle v key c e)
  unfolding settle
  settle-Settled allow key c e t there = record {
    tidy = erase-IsTidy key e.conns t;
    times_are = omega (arith, count_held-erase i key e.conns there);
    no_more = length-erase-le key e.conns;
    same_cap = refl;
    still_new = λ j n. find-erase-none j key e.conns n;
  }
  settle-Settled block key c e t there =
      let blocked = record e { conns = update key (block_conn c) e.conns } in
      let t' = update-IsTidy key (block_conn c) e.conns (λ _. refl) t in
      let k = remember_blocked-Kept i key blocked t' in
      record {
        tidy = k.tidy;
        times_are =
            omega (arith, k.times_are, count_held-update i key (block_conn c) e.conns there);
        no_more = omega (arith, k.no_more, length-update key (block_conn c) e.conns);
        same_cap = k.same_cap;
        still_new = λ j n. k.still_new j (find-update-none j key _ e.conns n);
      }

  defer_close-Settled :
      (c d : Conn) (e f : Extractor R) → Settled c e f → Settled c e (defer_close d f)
  unfolding defer_close
  defer_close-Settled c d e f k = elim (Bool-cases (not (d.pcpp_key == 0) && not d.pcpp_closed)) [
    | inl closes ↦ rw closes (record {
      tidy = k.tidy;
      times_are = k.times_are;
      no_more = k.no_more;
      same_cap = k.same_cap;
      still_new = k.still_new;
    })
    | inr none_left ↦ rw none_left k
  ]

  Settled-park :
      (c : Conn) (v : Verdict) (e f : Extractor R)
      → Settled c e f
      → Kept i 0 e (park_all c.held v f)
  Settled-park c v e f k =
      let p = park_all-Kept i c.held v f k.tidy in
      record {
        tidy = p.tidy;
        times_are = omega (arith, p.times_are, k.times_are);
        no_more = omega (arith, p.no_more, k.no_more);
        same_cap = p.same_cap ∙ k.same_cap;
        still_new = λ j n. p.still_new j (k.still_new j n);
      }

module _ {ℓ} {R : Type ℓ} (policy : Option Bytes → Verdict) (i : ℕ) where
  resolve_conn-Kept :
      (state : FlowState) (key : ℕ) (hostname : Option Bytes) (c : Conn) (e : Extractor R)
      → c.state ≡ state
      → IsTidy e.conns
      → find key e.conns ≡ some c
      → Kept i 0 e (resolve_conn policy key hostname c e)
  unfolding resolve_conn
  resolve_conn-Kept blocking key hostname c e is t there = rw (is, resolve_conn) (Kept-refl i e t)
  resolve_conn-Kept waiting key hostname c e is t there =
      rw (is, resolve_conn)
        (Settled-park i c _ e _
          (defer_close-Settled i c c e _ (settle-Settled i (policy hostname) key c e t there)))

  pub resolve-Kept :
      (key : ℕ) (hostname : Option Bytes) (e : Extractor R)
      → IsTidy e.conns
      → Kept i 0 e (resolve policy key hostname e)
  unfolding resolve
  resolve-Kept key hostname e t = elim (Option-cases (find key e.conns)) [
    | inl missing ↦ rw (missing, resolve) (Kept-refl i e t)
    | inr (c, there) ↦ rw (there, resolve) (resolve_conn-Kept c.state key hostname c e refl t there)
  ]

  on_connection_start-Kept :
      (flow_key : ℕ) (e : Extractor R)
      → IsTidy e.conns
      → Kept i 0 e (on_connection_start policy flow_key e)
  unfolding on_connection_start
  on_connection_start-Kept flow_key e t = elim (Bool-cases (not e.feeding)) [
    | inl idle ↦ rw idle (Kept-refl i e t)
    | inr busy ↦ rw busy (elim (Option-cases (find e.current_key e.conns)) [
      | inl missing ↦ rw (missing, on_connection_start) (Kept-refl i e t)
      | inr (c, there) ↦
          rw (there, on_connection_start)
            (update-Kept i e.current_key c _ e t there (find-IsTidy e.current_key e.conns there t)
              refl)
    ])
  ]

  act_on-Kept :
      (r : HostnameResult) (key : ℕ) (stream : Bytes) (e : Extractor R)
      → IsTidy e.conns
      → Kept i 0 e (act_on policy r key stream e)
  unfolding act_on
  act_on-Kept (found host) key stream e t = resolve-Kept key (some host) e t
  act_on-Kept not_found key stream e t = resolve-Kept key none e t
  act_on-Kept need_more key stream e t = elim (Bool-cases (ltb max_stream_bytes (length stream))) [
    | inl over ↦ rw over (resolve-Kept key none e t)
    | inr fits ↦ rw fits (Kept-refl i e t)
  ]

  on_client_data-Kept :
      (state : FlowState) (flow_key : ℕ) (bytes : Bytes) (c : Conn) (e : Extractor R)
      → c.state ≡ state
      → IsTidy e.conns
      → find e.current_key e.conns ≡ some c
      → Kept i 0 e (on_client_data policy flow_key bytes c e)
  unfolding on_client_data
  on_client_data-Kept blocking flow_key bytes c e is t there =
      rw (is, on_client_data) (Kept-refl i e t)
  on_client_data-Kept waiting flow_key bytes c e is t there =
      let k =
        update-Kept i e.current_key c (record c { pcpp_key = flow_key; stream = c.stream ++ bytes })
          e t there (find-IsTidy e.current_key e.conns there t) refl in
      rw (is, on_client_data) (Kept-then i e _ _ k (act_on-Kept _ _ _ _ k.tidy))

  on_message_ready-Kept :
      (side flow_key : ℕ) (bytes : Bytes) (e : Extractor R)
      → IsTidy e.conns
      → Kept i 0 e (on_message_ready policy side flow_key bytes e)
  unfolding on_message_ready
  on_message_ready-Kept side flow_key bytes e t =
      elim (Bool-cases (not e.feeding || not (side == 0))) [
        | inl ignored ↦ rw ignored (Kept-refl i e t)
        | inr client ↦ rw client (elim (Option-cases (find e.current_key e.conns)) [
          | inl missing ↦ rw (missing, on_message_ready) (Kept-refl i e t)
          | inr (c, there) ↦
              rw (there, on_message_ready)
                (on_client_data-Kept c.state flow_key bytes c e refl t there)
        ])
      ]

  on_connection_end-Kept :
      (e : Extractor R) → IsTidy e.conns → Kept i 0 e (on_connection_end policy e)
  unfolding on_connection_end
  on_connection_end-Kept e t = elim (Bool-cases (not e.feeding)) [
    | inl idle ↦ rw idle (Kept-refl i e t)
    | inr busy ↦ rw busy (elim (Option-cases (find e.current_key e.conns)) [
      | inl missing ↦ rw (missing, on_connection_end) (Kept-refl i e t)
      | inr (c, there) ↦
          let k =
            update-Kept i e.current_key c (record c { pcpp_closed = true }) e t there
              (find-IsTidy e.current_key e.conns there t) refl in
          rw (there, on_connection_end)
            (Kept-then i e _ _ k (resolve-Kept e.current_key none _ k.tidy))
    ])
  ]

  pub dispatch-Kept :
      (x : Event) (e : Extractor R) → IsTidy e.conns → Kept i 0 e (dispatch policy x e)
  unfolding dispatch
  dispatch-Kept (connection_start flow_key) e t = on_connection_start-Kept flow_key e t
  dispatch-Kept (message_ready side flow_key bytes) e t =
      on_message_ready-Kept side flow_key bytes e t
  dispatch-Kept connection_end e t = on_connection_end-Kept e t

  -- No callback, in any order and any number, loses or doubles a packet.
  pub dispatch_all-Kept :
      (xs : List Event) (e : Extractor R) → IsTidy e.conns → Kept i 0 e (dispatch_all policy xs e)
  unfolding dispatch_all
  dispatch_all-Kept [] e t = Kept-refl i e t
  dispatch_all-Kept (x ∷ xs) e t =
      let k = dispatch-Kept x e t in
      Kept-then i e _ _ k (dispatch_all-Kept xs (dispatch policy x e) k.tidy)
