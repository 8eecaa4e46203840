-- ===== src/Extractor/Followed/Tracked.antt =====
-- A packet of a flow that waits, in `track` of src/hostname_extractor.cpp and on its own.
use packet_inspector.Base.{
  ℕ, ◌≡◌, refl, sym, ap, ◌∙◌, inl, inr, true, false, Option, none, some, List, [], ◌∷◌, ◌++◌, arith,
  append_assoc, append-nil, leb, Bool-cases, Bytes, length,
}
use packet_inspector.Packet.{Packet, Verdict, allow}
use packet_inspector.Packet.Dissect.{FlowView}
use packet_inspector.Extractor.Table.{find, update}
use packet_inspector.Extractor.State.{
  waiting, Conn, Decided, Event, Reassembler, Extractor, max_packets_per_conn,
}
use packet_inspector.Extractor.Ring.{park}
use packet_inspector.Extractor.Callbacks.{resolve}
use packet_inspector.Extractor.Feed.{
  holds, changes_state, release_last, raw_bytes, release_held, track,
}
use packet_inspector.Extractor.Conserve.Tables.{
  IsTidy, find-update_self, find-IsTidy, update-IsTidy,
}
use packet_inspector.Extractor.Resolved.{decided_with, resolve-decides}
use packet_inspector.Extractor.Stable.Callbacks.{resolve-keeps}
use packet_inspector.Extractor.Idle.{IsIdle-IsStable}
use packet_inspector.Extractor.Followed.{
  Course, reading, settled, hear, Outcome, waits_on, is_settled, observe, IsWaiting, IsLeft,
}
use packet_inspector.Extractor.Followed.Settled.{left_of-IsLeft}
use packet_inspector.Extractor.Followed.Observed.{
  Rests, reassemble_packet-Rests, release_held-Rests, release_held-IsLeft,
}

-- The verdict `allow` for a packet.
abbrev pub passed : Packet → List Decided
passed pkt = record { pkt = pkt; verdict = allow } ∷ []

module _ (policy : Option Bytes → Verdict) (f : FlowView) (pkt : Packet) (xs : List Event)
    (stream : Bytes) (held : List Packet) where
  pub observe_full :
      leb max_packets_per_conn (length held) ≡ true
      → observe policy f pkt xs stream held
        ≡ is_settled (policy none) (decided_with (policy none) held ++ passed pkt)
  unfolding observe
  observe_full full = rw (observe, full) refl

  pub observe_held :
      leb max_packets_per_conn (length held) ≡ false
      → holds f ≡ true
      → observe policy f pkt xs stream held ≡ (elim (hear xs stream) [
        | reading longer ↦ waits_on longer (release_last (held ++ pkt ∷ [])) []
        | settled hostname ↦
            is_settled (policy hostname) (decided_with (policy hostname) (held ++ pkt ∷ []))
      ])
  unfolding observe
  observe_held room carries = rw (observe, room, carries) refl

  pub observe_change :
      leb max_packets_per_conn (length held) ≡ false
      → holds f ≡ false
      → changes_state f ≡ true
      → observe policy f pkt xs stream held ≡ (elim (hear xs stream) [
        | reading longer ↦ waits_on longer held (passed pkt)
        | settled hostname ↦
            is_settled (policy hostname) (decided_with (policy hostname) held ++ passed pkt)
      ])
  unfolding observe
  observe_change room pure change = rw (observe, room, pure, change) refl

  pub observe_plain :
      leb max_packets_per_conn (length held) ≡ false
      → holds f ≡ false
      → changes_state f ≡ false
      → observe policy f pkt xs stream held ≡ waits_on stream held (passed pkt)
  unfolding observe
  observe_plain room pure plain = rw (observe, room, pure, plain) refl

module _ {ℓ} {R : Type ℓ} (r : Reassembler R) (policy : Option Bytes → Verdict) where
  -- The outcome for a flow is what the extractor has of it; `ds` had been decided before.
  abbrev pub Shows : List Decided → ℕ → ℕ → Outcome → Extractor R → Type 0
  Shows ds key last (waits_on stream held out) f =
      IsWaiting key stream held last f.conns × (f.decided ≡ ds ++ out) × (f.feeding ≡ false)
  Shows ds key last (is_settled v out) f =
      IsLeft v key f.conns × (f.decided ≡ ds ++ out) × (f.feeding ≡ false)

  held-Shows :
      (ds : List Decided) (key : ℕ) (held : List Packet) (last : ℕ) (course : Course)
      (e : Extractor R)
      → Rests r policy ds key held last course e
      → Shows ds key last
          (elim course [
            | reading longer ↦ waits_on longer (release_last held) []
            | settled hostname ↦ is_settled (policy hostname) (decided_with (policy hostname) held)
          ])
          (release_held r policy key e)
  held-Shows ds key held last (reading stream) e h =
      let n = release_held-Rests r policy ds key held last stream e h in
      (n.0, n.1 ∙ sym (append-nil ds), n.2)
  held-Shows ds key held last (settled hostname) e h =
      let n = release_held-IsLeft r policy (policy hostname) key e h.0 in
      (n.0, n.1 ∙ h.1, n.2 ∙ h.2)

  passed-Shows :
      (ds : List Decided) (key : ℕ) (held : List Packet) (last : ℕ) (course : Course) (pkt : Packet)
      (e : Extractor R)
      → Rests r policy ds key held last course e
      → Shows ds key last
          (elim course [
            | reading longer ↦ waits_on longer held (passed pkt)
            | settled hostname ↦
                is_settled (policy hostname) (decided_with (policy hostname) held ++ passed pkt)
          ])
          (park pkt allow e)
  unfolding park
  passed-Shows ds key held last (reading stream) pkt e h = (h.0, ap (λ d. d ++ passed pkt) h.1, h.2)
  passed-Shows ds key held last (settled hostname) pkt e h =
      (h.0, ap (λ d. d ++ passed pkt) h.1 ∙ append_assoc ds _ _, h.2)

  resolved-Shows :
      (ds : List Decided) (key : ℕ) (pkt : Packet) (c : Conn) (e : Extractor R)
      → IsTidy e.conns
      → e.feeding ≡ false
      → find key e.conns ≡ some c
      → c.state ≡ waiting
      → Shows e.decided key c.last
          (is_settled (policy none) (decided_with (policy none) c.held ++ passed pkt))
          (park pkt allow (resolve policy key none e))
  unfolding park
  resolved-Shows ds key pkt c e t idle there is =
      let d = resolve-decides policy key none c e t there is in
      (
        left_of-IsLeft (policy none) c key _ d.1,
        ap (λ l. l ++ passed pkt) d.0 ∙ append_assoc e.decided _ _,
        resolve-keeps policy (IsIdle-IsStable policy) key e tt t idle,
      )

  pub track-Shows :
      (now : ℕ) (pkt : Packet) (f : FlowView) (c : Conn) (e : Extractor R)
      → IsTidy e.conns
      → e.feeding ≡ false
      → find f.key e.conns ≡ some c
      → c.state ≡ waiting
      → Shows e.decided f.key now
          (observe policy f pkt (r.reassemble (raw_bytes pkt) e.reassembly).0 c.stream c.held)
          (track r policy now pkt f c e)
  unfolding track park
  track-Shows now pkt f c e t idle there is =
      let xs = (r.reassemble (raw_bytes pkt) e.reassembly).0 in
      let w = record c { last = now } in
      let touched = record e { conns = update f.key w e.conns } in
      let t' = update-IsTidy f.key w e.conns (find-IsTidy f.key e.conns there t) t in
      let there' = find-update_self f.key w e.conns there in
      elim (Bool-cases (leb max_packets_per_conn (length c.held))) [
        | inl full ↦
            rw (observe_full policy f pkt xs c.stream c.held full)
              (rw full (resolved-Shows e.decided f.key pkt w touched t' idle there' is))
        | inr room ↦ elim (Bool-cases (holds f)) [
          | inl carries ↦
              let w' = record c { last = now; held = c.held ++ pkt ∷ [] } in
              let held = record e { conns = update f.key w' e.conns } in
              let t'' = update-IsTidy f.key w' e.conns (λ b. absurd (ground (arith, is, b))) t in
              rw (observe_held policy f pkt xs c.stream c.held room carries) (
                rw (room, carries)
                  (held-Shows e.decided f.key w'.held now (hear xs c.stream) _ (
                    reassemble_packet-Rests r policy f.key pkt w' held t''
                      (find-update_self f.key w' e.conns there) is)))
          | inr pure ↦ elim (Bool-cases (changes_state f)) [
            | inl change ↦ rw (observe_change policy f pkt xs c.stream c.held room pure change) (
                rw (room, pure, change)
                  (passed-Shows e.decided f.key c.held now (hear xs c.stream) pkt _
                    (reassemble_packet-Rests r policy f.key pkt w touched t' there' is)))
            | inr plain ↦ rw (observe_plain policy f pkt xs c.stream c.held room pure plain) (
                rw (room, pure, plain)
                  (
                    record {
                      entry = w;
                      there = there';
                      waits = is;
                      same_stream = refl;
                      same_held = refl;
                      same_last = refl;
                    },
                    refl,
                    idle,
                  ))
          ]
        ]
      ]
