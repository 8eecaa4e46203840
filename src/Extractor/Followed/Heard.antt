-- ===== src/Extractor/Followed/Heard.antt =====
-- A flow that waits, under the callbacks of one call of the reassembler.
use packet_inspector.Base.{
  ℕ, ◌≡◌, refl, inl, inr, ◌⊎◌, true, false, not, ◌||◌, Option, none, some, List, [], ◌∷◌, ◌++◌,
  arith, ltb, ◌==◌, Bool-cases, Bytes, length,
}
use packet_inspector.Tls.Records.{HostnameResult, found, not_found, need_more}
use packet_inspector.Packet.{Packet, Verdict}
use packet_inspector.Extractor.Table.{find, update}
use packet_inspector.Extractor.State.{
  FlowState, waiting, blocking, Conn, Decided, Event, connection_start, message_ready,
  connection_end, Extractor, max_stream_bytes,
}
use packet_inspector.Extractor.Callbacks.{
  hostname_in, resolve, act_on, on_client_data, on_message_ready, dispatch, dispatch_all,
}
use packet_inspector.Extractor.Conserve.Tables.{
  IsTidy, find-update_self, find-IsTidy, update-IsTidy,
}
use packet_inspector.Extractor.Resolved.{decided_with}
use packet_inspector.Extractor.Followed.{Course, reading, settled, judge, hear, IsWaiting}
use packet_inspector.Extractor.Followed.Settled.{
  IsDone, end_busy, start_busy, dispatch_all-IsDone, resolve-IsDone,
}

pub when_waiting {ℓ} :
    {A : Type ℓ} (state : FlowState) (a b : A)
    → state ≡ waiting
    → (elim state [ blocking ↦ a | waiting ↦ b ]) ≡ b
when_waiting waiting a b is = refl
when_waiting blocking a b is = absurd (ground arith)

pub hear_server :
    (side flow_key : ℕ) (bytes : Bytes) (xs : List Event) (stream : Bytes)
    → (side == 0) ≡ false
    → hear (message_ready side flow_key bytes ∷ xs) stream ≡ hear xs stream
unfolding hear
hear_server side flow_key bytes xs stream server = rw (hear, server) refl

pub hear_client :
    (side flow_key : ℕ) (bytes : Bytes) (xs : List Event) (stream : Bytes) (course : Course)
    → (side == 0) ≡ true
    → judge (stream ++ bytes) ≡ course
    → hear (message_ready side flow_key bytes ∷ xs) stream
      ≡ (elim course [ reading longer ↦ hear xs longer | settled hostname ↦ settled hostname ])
unfolding hear
hear_client side flow_key bytes xs stream course client judged = rw (hear, client, judged) refl

module _ {ℓ} {R : Type ℓ} (policy : Option Bytes → Verdict) where
  -- What becomes of the flow that is being fed, with those packets held, and of the verdicts `ds`.
  abbrev pub Follows : List Decided → ℕ → List Packet → ℕ → Course → Extractor R → Type 0
  Follows ds key held last (reading stream) f =
      IsWaiting key stream held last f.conns
      × (f.decided ≡ ds)
      × (f.current_key ≡ key)
      × (f.feeding ≡ true)
  Follows ds key held last (settled hostname) f =
      IsDone policy (policy hostname) key (ds ++ decided_with (policy hostname) held) f

  act_on-cases :
      (h : HostnameResult) (key : ℕ) (stream : Bytes) (e : Extractor R)
      → hostname_in stream ≡ h
      → ((hostname : Option Bytes) × (judge stream ≡ settled hostname)
          × (act_on policy h key stream e ≡ resolve policy key hostname e))
        ⊎ ((judge stream ≡ reading stream) × (act_on policy h key stream e ≡ e))
  unfolding judge act_on
  act_on-cases (found host) key stream e is = inl (some host, rw (is, judge) refl, refl)
  act_on-cases not_found key stream e is = inl (none, rw (is, judge) refl, refl)
  act_on-cases need_more key stream e is =
      elim (Bool-cases (ltb max_stream_bytes (length stream))) [
        | inl over ↦ inl (none, rw (is, judge) (rw over refl), rw over refl)
        | inr fits ↦ inr (rw (is, judge) (rw fits refl), rw fits refl)
      ]

  data_busy :
      (side flow_key : ℕ) (bytes : Bytes) (c : Conn) (e : Extractor R)
      → (side == 0) ≡ true
      → e.feeding ≡ true
      → find e.current_key e.conns ≡ some c
      → c.state ≡ waiting
      → dispatch policy (message_ready side flow_key bytes) e
        ≡ act_on policy
            (hostname_in (c.stream ++ bytes))
            e.current_key
            (c.stream ++ bytes)
            (record e {
              conns =
                  update e.current_key
                    (record c { pcpp_key = flow_key; stream = c.stream ++ bytes })
                    e.conns;
            })
  unfolding dispatch on_message_ready on_client_data
  data_busy side flow_key bytes c e client busy there is =
      elim (Bool-cases (not e.feeding || not (side == 0))) [
        | inl ignored ↦ absurd (ground arith)
        | inr heard ↦ rw heard (rw (there, on_message_ready) (when_waiting c.state e _ is))
      ]

  server_data :
      (side flow_key : ℕ) (bytes : Bytes) (e : Extractor R)
      → (side == 0) ≡ false
      → dispatch policy (message_ready side flow_key bytes) e ≡ e
  unfolding dispatch on_message_ready
  server_data side flow_key bytes e server = elim (Bool-cases (not e.feeding || not (side == 0))) [
    | inl ignored ↦ rw ignored refl
    | inr client ↦ absurd (ground arith)
  ]

  settled_then :
      (hostname : Option Bytes) (xs : List Event) (c : Conn) (e : Extractor R)
      → IsTidy e.conns
      → e.feeding ≡ true
      → find e.current_key e.conns ≡ some c
      → c.state ≡ waiting
      → Follows e.decided e.current_key c.held c.last
          (settled hostname)
          (dispatch_all policy xs (resolve policy e.current_key hostname e))
  settled_then hostname xs c e t busy there is =
      dispatch_all-IsDone policy (policy hostname) e.current_key _ xs _
        (resolve-IsDone policy hostname c e t busy there is)

  -- The callbacks of one call of the reassembler do to the flow that is being fed what the flow on its
  -- own does.
  pub dispatch_all-Follows :
      (xs : List Event) (c : Conn) (e : Extractor R)
      → IsTidy e.conns
      → e.feeding ≡ true
      → find e.current_key e.conns ≡ some c
      → c.state ≡ waiting
      → Follows e.decided e.current_key c.held c.last (hear xs c.stream) (dispatch_all policy xs e)
  unfolding dispatch_all hear
  dispatch_all-Follows [] c e t busy there is = (
    record {
      entry = c;
      there = there;
      waits = is;
      same_stream = refl;
      same_held = refl;
      same_last = refl;
    },
    refl,
    refl,
    busy,
  )
  dispatch_all-Follows (connection_start flow_key ∷ xs) c e t busy there is =
      let w = record c { pcpp_key = flow_key } in
      let e' = record e { conns = update e.current_key w e.conns } in
      let t' =
        update-IsTidy e.current_key w e.conns (find-IsTidy e.current_key e.conns there t) t in
      rw (start_busy policy flow_key c e busy there)
        (dispatch_all-Follows xs w e' t' busy (find-update_self e.current_key w e.conns there) is)
  dispatch_all-Follows (connection_end ∷ xs) c e t busy there is =
      let w = record c { pcpp_closed = true } in
      let e' = record e { conns = update e.current_key w e.conns } in
      let t' =
        update-IsTidy e.current_key w e.conns (find-IsTidy e.current_key e.conns there t) t in
      rw (end_busy policy c e busy there)
        (settled_then none xs w e' t' busy (find-update_self e.current_key w e.conns there) is)
  dispatch_all-Follows (message_ready side flow_key bytes ∷ xs) c e t busy there is =
      elim (Bool-cases (side == 0)) [
        | inr server ↦ rw (hear_server side flow_key bytes xs c.stream server) (
            rw (server_data side flow_key bytes e server)
              (dispatch_all-Follows xs c e t busy there is))
        | inl client ↦
            let stream = c.stream ++ bytes in
            let w = record c { pcpp_key = flow_key; stream = stream } in
            let e' = record e { conns = update e.current_key w e.conns } in
            let t' =
              update-IsTidy e.current_key w e.conns (find-IsTidy e.current_key e.conns there t) t in
            let there' = find-update_self e.current_key w e.conns there in
            rw (data_busy side flow_key bytes c e client busy there is)
              (elim (act_on-cases (hostname_in stream) e.current_key stream e' refl) [
                | inl (hostname, judged, acted) ↦
                    rw (hear_client side flow_key bytes xs c.stream _ client judged)
                      (rw acted (settled_then hostname xs w e' t' busy there' is))
                | inr (judged, acted) ↦
                    rw (hear_client side flow_key bytes xs c.stream _ client judged)
                      (rw acted (dispatch_all-Follows xs w e' t' busy there' is))
              ])
      ]
