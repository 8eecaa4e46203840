-- ===== src/Extractor/Stable/Track.antt =====
-- The packets of a flow that is being inspected keep a stable predicate.
use packet_inspector.Base.{
  ℕ, ◌≡◌, refl, inl, inr, true, false, Option, none, some, List, [], ◌∷◌, ◌++◌, leb, Bool-cases,
  Option-cases, Bytes, length, All, All-append,
}
use packet_inspector.Packet.{Packet, Verdict}
use packet_inspector.Packet.Dissect.{FlowView}
use packet_inspector.Extractor.Table.{find, update}
use packet_inspector.Extractor.State.{
  Event, connection_start, message_ready, connection_end, waiting, Conn, Reassembler, Extractor,
  max_packets_per_conn,
}
use packet_inspector.Extractor.Feed.{
  changes_state, holds, call, raw_bytes, release_last, release_held, reassemble_packet, track,
}
use packet_inspector.Extractor.Conserve.Tables.{IsTidy, find-IsTidy}
use packet_inspector.Extractor.Conserve.Steps.{update-Kept}
use packet_inspector.Extractor.Conserve.Sweep.{call-Kept}
use packet_inspector.Extractor.Conserve.Track.{hold-Kept, reassemble_packet-Kept}
use packet_inspector.Extractor.Stable.{
  Core, core, AllSent, Grows, Hearable, HeardEvent, Scope, IsGuarded,
}
use packet_inspector.Extractor.Stable.Callbacks.{resolve-keeps}
use packet_inspector.Extractor.Stable.Sweep.{call-keeps, drain_closes-keeps}

module _ {ℓ ι σ κ} {R : Type ℓ} (r : Reassembler R) (policy : Option Bytes → Verdict)
    {Heard : ℕ → Bytes → Type ι} {Sent : ℕ → ℕ → Type σ} {scope : Scope}
    {P : Option ℕ → Core → Type κ} (guarded : IsGuarded R policy Heard Sent scope P) where
  -- What the reassembler delivers for a packet is of the packet's flow.
  abbrev pub Delivers : ℕ → Packet → Type (ℓ ⊔ ι)
  Delivers key pkt = (s : R) → All (HeardEvent Heard key) (r.reassemble (raw_bytes pkt) s).0

  tuned_in :
      (key : ℕ) (xs : List Event)
      → All (HeardEvent Heard key) xs
      → All (Hearable Heard (P (some key))) xs
  tuned_in key [] h = tt
  tuned_in key (connection_start flow_key ∷ xs) h = (tt, tuned_in key xs h.1)
  tuned_in key (message_ready side flow_key bytes ∷ xs) h =
      ((λ s p feeding client. guarded.tuned key s bytes p (h.0 client)), tuned_in key xs h.1)
  tuned_in key (connection_end ∷ xs) h = (tt, tuned_in key xs h.1)

  release_last-AllSent :
      (key : ℕ) (pkts : List Packet) → AllSent Sent key pkts → AllSent Sent key (release_last pkts)
  unfolding release_last
  release_last-AllSent key [] h = tt
  release_last-AllSent key (pkt ∷ []) h = h
  release_last-AllSent key (pkt ∷ next ∷ pkts) h = (h.0, release_last-AllSent key (next ∷ pkts) h.1)

  release_held-keeps :
      (key : ℕ) (e : Extractor R)
      → scope.may key
      → IsTidy e.conns
      → P none (core e)
      → P none (core (release_held r policy key e))
  unfolding release_held
  release_held-keeps key e may t p = elim (Option-cases (find key e.conns)) [
    | inl missing ↦ rw (missing, release_held) p
    | inr (c, there) ↦
        rw (there, release_held)
          ((guarded.stable none).write key c _ e may t there
            (record {
              same_state = refl;
              stream_grows = λ s. s;
              held_grows = release_last-AllSent key c.held;
            })
            p)
  ]

  reassemble_packet-keeps :
      (key : ℕ) (pkt : Packet) (e : Extractor R)
      → scope.may key
      → IsTidy e.conns
      → Delivers key pkt
      → P none (core e)
      → P none (core (reassemble_packet r policy key pkt e))
  unfolding reassemble_packet
  reassemble_packet-keeps key pkt e may t delivers p =
      let ready = record e { current_key = key; feeding = true } in
      let result = r.reassemble (raw_bytes pkt) e.reassembly in
      let fed = call r policy result ready in
      let heard = tuned_in key result.0 (delivers e.reassembly) in
      drain_closes-keeps r policy (guarded.stable none) guarded.deaf
        (record fed { feeding = false }) (call-Kept r policy 0 result ready t).tidy
        (guarded.leave key fed (
          call-keeps r policy (guarded.stable (some key)) result ready t heard
            (guarded.enter key e may p)))

  pub track-keeps :
      (now : ℕ) (pkt : Packet) (f : FlowView) (c : Conn) (e : Extractor R)
      → find f.key e.conns ≡ some c
      → c.state ≡ waiting
      → scope.may f.key
      → IsTidy e.conns
      → Sent f.key pkt.id
      → Delivers f.key pkt
      → P none (core e)
      → P none (core (track r policy now pkt f c e))
  unfolding track
  track-keeps now pkt f c e there waits may t sent delivers p =
      let w = record c { last = now } in
      let touched = record e { conns = update f.key w e.conns } in
      let t' = (update-Kept 0 f.key c w e t there (find-IsTidy f.key e.conns there t) refl).tidy in
      let same : Grows Heard Sent f.key c w = record {
        same_state = refl;
        stream_grows = λ s. s;
        held_grows = λ h. h;
      } in
      let p' = (guarded.stable none).write f.key c w e may t there same p in
      elim (Bool-cases (leb max_packets_per_conn (length c.held))) [
        | inl full ↦ rw full (
            (guarded.stable none).let_go pkt _
              (resolve-keeps policy (guarded.stable none) f.key touched may t' p'))
        | inr room ↦ elim (Bool-cases (holds f)) [
          | inl carries ↦
              rw (room, carries)
                (let w' = record c { last = now; held = c.held ++ pkt ∷ [] } in
                  let held = record e { conns = update f.key w' e.conns } in
                  let h = hold-Kept r policy 0 now pkt f c e there waits t in
                  release_held-keeps f.key _ may
                    (reassemble_packet-Kept r policy 0 f.key pkt held h.tidy).tidy
                    (reassemble_packet-keeps f.key pkt held may h.tidy delivers (
                      (guarded.stable none).write f.key c w' e may t there
                        (record {
                          same_state = refl;
                          stream_grows = λ s. s;
                          held_grows =
                              λ h. All-append (λ q. Sent f.key q.id) c.held (pkt ∷ []) h (sent, tt);
                        })
                        p)))
          | inr pure ↦ elim (Bool-cases (changes_state f)) [
            | inl change ↦
                rw (room, pure, change)
                  ((guarded.stable none).let_go pkt _
                    (reassemble_packet-keeps f.key pkt touched may t' delivers p'))
            | inr plain ↦ rw (room, pure, plain) ((guarded.stable none).let_go pkt touched p')
          ]
        ]
      ]
