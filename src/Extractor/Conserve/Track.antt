-- ===== src/Extractor/Conserve/Track.antt =====
-- The packets under the part of `feed` for a flow that is being inspected.
use packet_inspector.Base.{
  ℕ, ◌≡◌, refl, ◌∙◌, inl, inr, true, false, Option, none, some, List, [], ◌∷◌, ◌++◌, arith, leb,
  Bool-cases, Option-cases, Bytes, length,
}
use packet_inspector.Packet.{Packet, Verdict, allow}
use packet_inspector.Packet.Dissect.{FlowView}
use packet_inspector.Extractor.Table.{find, update}
use packet_inspector.Extractor.State.{waiting, Conn, Reassembler, Extractor, max_packets_per_conn}
use packet_inspector.Extractor.Feed.{
  changes_state, release_last, holds, call, release_held, reassemble_packet, raw_bytes, track,
}
use packet_inspector.Extractor.Conserve.Tables.{
  has_id, count_packets, IsTidy, count_packets-append, count_held-update, length-update,
  update-IsTidy, find-update-none, find-IsTidy,
}
use packet_inspector.Extractor.Conserve.Steps.{
  Kept, Kept-refl, Kept-then, then-Kept, park-Kept, update-Kept,
}
use packet_inspector.Extractor.Conserve.Callbacks.{resolve-Kept}
use packet_inspector.Extractor.Conserve.Sweep.{call-Kept, drain_closes-Kept}

count_packets-release_last :
    (i : ℕ) (pkts : List Packet) → count_packets i (release_last pkts) ≡ count_packets i pkts
unfolding release_last
count_packets-release_last i [] = refl
count_packets-release_last i (pkt ∷ []) = refl
count_packets-release_last i (pkt ∷ next ∷ pkts) =
    omega (arith, count_packets-release_last i (next ∷ pkts))

release_last-nil : (pkts : List Packet) → pkts ≡ [] → release_last pkts ≡ []
unfolding release_last
release_last-nil [] e = refl
release_last-nil (pkt ∷ pkts) e = cc

module _ {ℓ} {R : Type ℓ} (r : Reassembler R) (policy : Option Bytes → Verdict) (i : ℕ) where
  pub release_held-Kept :
      (key : ℕ) (e : Extractor R) → IsTidy e.conns → Kept i 0 e (release_held r policy key e)
  unfolding release_held
  release_held-Kept key e t = elim (Option-cases (find key e.conns)) [
    | inl missing ↦ rw (missing, release_held) (Kept-refl i e t)
    | inr (c, there) ↦
        rw (there, release_held)
          (record {
            tidy =
                update-IsTidy key _ e.conns
                  (λ b. release_last-nil c.held (find-IsTidy key e.conns there t b)) t;
            times_are = omega (
              arith,
              count_held-update i key (record c { held = release_last c.held }) e.conns there,
              count_packets-release_last i c.held,
            );
            no_more =
                omega (arith, length-update key (record c { held = release_last c.held }) e.conns);
            same_cap = refl;
            still_new = λ j n. find-update-none j key _ e.conns n;
          })
  ]

  pub reassemble_packet-Kept :
      (key : ℕ) (pkt : Packet) (e : Extractor R)
      → IsTidy e.conns
      → Kept i 0 e (reassemble_packet r policy key pkt e)
  unfolding reassemble_packet
  reassemble_packet-Kept key pkt e t =
      let ready = record e { current_key = key; feeding = true } in
      let k = call-Kept r policy i (r.reassemble (raw_bytes pkt) e.reassembly) ready t in
      let fed = call r policy (r.reassemble (raw_bytes pkt) e.reassembly) ready in
      let d = drain_closes-Kept r policy i (record fed { feeding = false }) k.tidy in
      record {
        tidy = d.tidy;
        times_are = omega (arith, d.times_are, k.times_are);
        no_more = omega (arith, d.no_more, k.no_more);
        same_cap = d.same_cap ∙ k.same_cap;
        still_new = λ j n. d.still_new j (k.still_new j n);
      }

  pub hold-Kept :
      (now : ℕ) (pkt : Packet) (f : FlowView) (c : Conn) (e : Extractor R)
      → find f.key e.conns ≡ some c
      → c.state ≡ waiting
      → IsTidy e.conns
      → Kept i (has_id i pkt) e (record e {
        conns = update f.key (record c { last = now; held = c.held ++ pkt ∷ [] }) e.conns;
      })
  hold-Kept now pkt f c e there waits t =
      let c' = record c { last = now; held = c.held ++ pkt ∷ [] } in
      record {
        tidy = update-IsTidy f.key c' e.conns (λ b. ground arith) t;
        times_are = omega (
          arith,
          count_held-update i f.key c' e.conns there,
          count_packets-append i c.held (pkt ∷ []),
        );
        no_more = omega (arith, length-update f.key c' e.conns);
        same_cap = refl;
        still_new = λ j n. find-update-none j f.key c' e.conns n;
      }

  -- A packet of a flow that is being inspected comes in once.
  pub track-Kept :
      (now : ℕ) (pkt : Packet) (f : FlowView) (c : Conn) (e : Extractor R)
      → find f.key e.conns ≡ some c
      → c.state ≡ waiting
      → IsTidy e.conns
      → Kept i (has_id i pkt) e (track r policy now pkt f c e)
  unfolding track
  track-Kept now pkt f c e there waits t =
      let touch =
        update-Kept i f.key c (record c { last = now }) e t there (λ b. ground arith) refl in
      let touched = record e { conns = update f.key (record c { last = now }) e.conns } in
      elim (Bool-cases (leb max_packets_per_conn (length c.held))) [
        | inl full ↦
            let k = resolve-Kept policy i f.key none touched touch.tidy in
            rw full (
              Kept-then i e touched _ touch
                (Kept-then i touched _ _ k (park-Kept i pkt allow _ k.tidy)))
        | inr room ↦ elim (Bool-cases (holds f)) [
          | inl carries ↦
              rw (room, carries)
                (let h = hold-Kept now pkt f c e there waits t in
                  let k = reassemble_packet-Kept f.key pkt _ h.tidy in
                  then-Kept i e _ _ h (Kept-then i _ _ _ k (release_held-Kept f.key _ k.tidy)))
          | inr pure ↦ elim (Bool-cases (changes_state f)) [
            | inl change ↦
                let k = reassemble_packet-Kept f.key pkt touched touch.tidy in
                rw (room, pure, change)
                  (Kept-then i e touched _ touch
                    (Kept-then i touched _ _ k (park-Kept i pkt allow _ k.tidy)))
            | inr plain ↦
                rw (room, pure, plain)
                  (Kept-then i e touched _ touch (park-Kept i pkt allow touched touch.tidy))
          ]
        ]
      ]
