-- ===== src/Extractor/Followed/Turns.antt =====
-- The packets of a flow, with what the client says in them, and what `onMessageReady` of
-- src/hostname_extractor.cpp has of it.
use packet_inspector.Base.{
  ℕ, ◌≡◌, refl, sym, ap, subst, ◌∙◌, inl, inr, true, false, ◌||◌, Option, List, [], ◌∷◌, ◌++◌,
  arith, append_assoc, append-nil, leb, if◌then◌else◌, Bool-cases, Bytes, length,
}
use packet_inspector.Tls.Records.{need_more}
use packet_inspector.Packet.{Packet, Verdict}
use packet_inspector.Packet.Dissect.{FlowView}
use packet_inspector.Extractor.State.{Decided, Event, max_packets_per_conn}
use packet_inspector.Extractor.Callbacks.{hostname_in}
use packet_inspector.Extractor.Feed.{holds, changes_state, release_last}
use packet_inspector.Extractor.Followed.{reading, hear, waits_on, observe}
use packet_inspector.Extractor.Followed.Tracked.{
  observe_full, observe_held, observe_change, observe_plain,
}
use packet_inspector.Extractor.Followed.Spoken.{client_bytes, Course-cases, hear-reading}

-- A packet of the flow, and the callbacks of the reassembler for it.
pub record Turn : Type 0 where
  pub pkt : Packet
  pub view : FlowView
  pub events : List Event

-- The client's bytes in a turn: a packet without bytes and without SYN, FIN and RST is not given to the
-- reassembler.
abbrev pub said : FlowView → List Event → Bytes
said f xs = if holds f || changes_state f then client_bytes xs else []

abbrev pub spoken : List Turn → Bytes
spoken [] = []
spoken (t ∷ ts) = said t.view t.events ++ spoken ts

abbrev pub ids : List Packet → List ℕ
ids [] = []
ids (pkt ∷ pkts) = pkt.id ∷ ids pkts

-- The packets of the turns that have bytes, by their ids.
abbrev pub payload_id : FlowView → Packet → List ℕ
payload_id f pkt = if holds f then pkt.id ∷ [] else []

abbrev pub payload_ids : List Turn → List ℕ
payload_ids [] = []
payload_ids (t ∷ ts) = payload_id t.view t.pkt ++ payload_ids ts

pub spoken-append : (ts us : List Turn) → spoken (ts ++ us) ≡ spoken ts ++ spoken us
spoken-append [] us = refl
spoken-append (t ∷ ts) us =
    ap (λ s. said t.view t.events ++ s) (spoken-append ts us)
    ∙ sym (append_assoc (said t.view t.events) _ _)

pub payload_ids-append :
    (ts us : List Turn) → payload_ids (ts ++ us) ≡ payload_ids ts ++ payload_ids us
payload_ids-append [] us = refl
payload_ids-append (t ∷ ts) us =
    ap (λ s. payload_id t.view t.pkt ++ s) (payload_ids-append ts us)
    ∙ sym (append_assoc (payload_id t.view t.pkt) _ _)

pub ids-append : (ps qs : List Packet) → ids (ps ++ qs) ≡ ids ps ++ ids qs
ids-append [] qs = refl
ids-append (p ∷ ps) qs = ap (◌∷◌ p.id) (ids-append ps qs)

ids-release_last : (ps : List Packet) → ids (release_last ps) ≡ ids ps
unfolding release_last
ids-release_last [] = refl
ids-release_last (p ∷ []) = refl
ids-release_last (p ∷ q ∷ ps) = ap (◌∷◌ p.id) (ids-release_last (q ∷ ps))

pub hostname_in-empty : hostname_in [] ≡ need_more
unfolding hostname_in packet_inspector.Tls.extract_hostname
    packet_inspector.Tls.Records.collect_handshake packet_inspector.Tls.after_collect
hostname_in-empty = refl

-- A packet after which the flow waits on.
pub record IsHeard (f : FlowView) (pkt : Packet) (xs : List Event) (stream : Bytes)
    (held : List Packet) (longer : Bytes) (kept : List Packet) : Type 0 where
  pub longer_is : longer ≡ stream ++ said f xs
  pub asks : hostname_in longer ≡ need_more
  pub kept_ids : ids kept ≡ ids held ++ payload_id f pkt

module _ (f : FlowView) (pkt : Packet) (xs : List Event) (stream : Bytes) (held : List Packet) where
  same-IsHeard :
      (a longer : Bytes) (b kept : List Packet) (o out : List Decided)
      → waits_on a b o ≡ waits_on longer kept out
      → IsHeard f pkt xs stream held a b
      → IsHeard f pkt xs stream held longer kept
  same-IsHeard a longer b kept o out is h =
      let same_stream : a ≡ longer = ground arith in
      let same_held : b ≡ kept = ground arith in
      record {
        longer_is = sym same_stream ∙ h.longer_is;
        asks = subst (λ s. hostname_in s ≡ need_more) same_stream h.asks;
        kept_ids = subst (λ s. ids s ≡ ids held ++ payload_id f pkt) same_held h.kept_ids;
      }

  held-IsHeard :
      (next : Bytes)
      → holds f ≡ true
      → hostname_in stream ≡ need_more
      → hear xs stream ≡ reading next
      → IsHeard f pkt xs stream held next (release_last (held ++ pkt ∷ []))
  held-IsHeard next carries more heard =
      let h = hear-reading xs stream next more heard in
      record {
        longer_is = rw carries h.0;
        asks = h.1;
        kept_ids = rw carries (ids-release_last (held ++ pkt ∷ []) ∙ ids-append held (pkt ∷ []));
      }

  change-IsHeard :
      (next : Bytes)
      → holds f ≡ false
      → changes_state f ≡ true
      → hostname_in stream ≡ need_more
      → hear xs stream ≡ reading next
      → IsHeard f pkt xs stream held next held
  change-IsHeard next pure change more heard =
      let h = hear-reading xs stream next more heard in
      record {
        longer_is = rw (pure, change) h.0;
        asks = h.1;
        kept_ids = rw pure (sym (append-nil (ids held)));
      }

  plain-IsHeard :
      holds f ≡ false
      → changes_state f ≡ false
      → hostname_in stream ≡ need_more
      → IsHeard f pkt xs stream held stream held
  plain-IsHeard pure plain more = record {
    longer_is = rw (pure, plain) (sym (append-nil stream));
    asks = more;
    kept_ids = rw pure (sym (append-nil (ids held)));
  }

  -- A flow that waits on, on its own, has the client's bytes added to its stream, which has no hostname
  -- yet, and the packet behind those that it holds if the packet has bytes.
  pub observe-IsHeard :
      (policy : Option Bytes → Verdict) (longer : Bytes) (kept : List Packet) (out : List Decided)
      → hostname_in stream ≡ need_more
      → observe policy f pkt xs stream held ≡ waits_on longer kept out
      → IsHeard f pkt xs stream held longer kept
  observe-IsHeard policy longer kept out more is =
      elim (Bool-cases (leb max_packets_per_conn (length held))) [
        | inl full ↦ cc (sym (observe_full policy f pkt xs stream held full) ∙ is)
        | inr room ↦ elim (Bool-cases (holds f)) [
          | inl carries ↦
              let e = sym (observe_held policy f pkt xs stream held room carries) ∙ is in
              elim (Course-cases (hear xs stream)) [
                | inr (name, heard) ↦ cc (rw heard at e)
                | inl (next, heard) ↦
                    same-IsHeard next longer _ kept _ out (rw heard at e)
                      (held-IsHeard next carries more heard)
              ]
          | inr pure ↦ elim (Bool-cases (changes_state f)) [
            | inl change ↦
                let e = sym (observe_change policy f pkt xs stream held room pure change) ∙ is in
                elim (Course-cases (hear xs stream)) [
                  | inr (name, heard) ↦ cc (rw heard at e)
                  | inl (next, heard) ↦
                      same-IsHeard next longer _ kept _ out (rw heard at e)
                        (change-IsHeard next pure change more heard)
                ]
            | inr plain ↦
                same-IsHeard stream longer held kept _ out
                  (sym (observe_plain policy f pkt xs stream held room pure plain) ∙ is)
                  (plain-IsHeard pure plain more)
          ]
        ]
      ]
