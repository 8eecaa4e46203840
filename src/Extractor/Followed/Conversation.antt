-- ===== src/Extractor/Followed/Conversation.antt =====
-- A flow from its first packet on, while src/hostname_extractor.cpp works on others in between.
use packet_inspector.Base.{
  ℕ, ◌-◌, ◌<◌, ◌≡◌, ◌≢◌, sym, ap, subst, ◌∙◌, false, true, ◌||◌, Option, none, some, List, [], ◌∷◌,
  ◌++◌, arith, append-nil, Bytes, length,
}
use packet_inspector.Tls.Records.{need_more}
use packet_inspector.Packet.{Packet, Verdict}
use packet_inspector.Packet.Dissect.{FlowView}
use packet_inspector.Extractor.Table.{find}
use packet_inspector.Extractor.State.{Conn, Decided, Reassembler, Extractor, wait_idle_timeout}
use packet_inspector.Extractor.Callbacks.{hostname_in}
use packet_inspector.Extractor.Feed.{
  opens_tls_handshake, is_client_syn, tcp_flow, is_expired, tick, feed,
}
use packet_inspector.Extractor.Conserve.Tables.{IsTidy}
use packet_inspector.Extractor.Conserve.Feed.{feed-Fed}
use packet_inspector.Extractor.Conserve.Sweep.{tick-Kept}
use packet_inspector.Extractor.Isolated.{tick-spares, feed-spares}
use packet_inspector.Extractor.Followed.{waits_on, observe, IsWaiting}
use packet_inspector.Extractor.Followed.Tracked.{Shows}
use packet_inspector.Extractor.Followed.Fed.{callbacks, feed-Shows, feed_first-Shows}
use packet_inspector.Extractor.Followed.Turns.{
  Turn, said, spoken, ids, payload_id, payload_ids, spoken-append, payload_ids-append,
  hostname_in-empty, observe-IsHeard,
}

module _ {ℓ} {R : Type ℓ} (r : Reassembler R) (policy : Option Bytes → Verdict) where
  -- The flow `key` has been followed since its first packet, with these packets of its own: on its own
  -- it waits on after each, with this stream and these packets held now, and none came 10 seconds or
  -- more behind the one before. In between the extractor may tick, be fed packets of other flows, and
  -- hand its verdicts over; no tick and no such packet is 10 seconds or more behind the flow's last one.
  pub data Waits (key : ℕ) : List Turn → Bytes → List Packet → ℕ → Extractor R → Type ℓ where
    opens :
        {stream : Bytes} {held : List Packet} {out : List Decided} (e : Extractor R) (now : ℕ)
        (pkt : Packet) (f : FlowView)
        → IsTidy e.conns
        → e.feeding ≡ false
        → tcp_flow pkt ≡ some f
        → f.key ≡ key
        → find key e.conns ≡ none
        → (is_client_syn f || opens_tls_handshake f.payload) ≡ true
        → length e.conns < e.max_flows
        → observe policy f pkt (callbacks r policy now pkt e) [] [] ≡ waits_on stream held out
        → Waits key
            (record { pkt = pkt; view = f; events = callbacks r policy now pkt e } ∷ [])
            stream
            held
            now
            (feed r policy now pkt e)
    hears :
        {own : List Turn} {stream longer : Bytes} {held kept : List Packet} {out : List Decided}
        {last : ℕ} {e : Extractor R} (now : ℕ) (pkt : Packet) (f : FlowView)
        → Waits key own stream held last e
        → now - last < wait_idle_timeout
        → tcp_flow pkt ≡ some f
        → f.key ≡ key
        → observe policy f pkt (callbacks r policy now pkt e) stream held ≡ waits_on longer kept out
        → Waits key
            (own ++ record { pkt = pkt; view = f; events = callbacks r policy now pkt e } ∷ [])
            longer
            kept
            now
            (feed r policy now pkt e)
    passes :
        {own : List Turn} {stream : Bytes} {held : List Packet} {last : ℕ} {e : Extractor R}
        (now : ℕ) (pkt : Packet)
        → Waits key own stream held last e
        → now - last < wait_idle_timeout
        → ((f : FlowView) → tcp_flow pkt ≡ some f → f.key ≢ key)
        → Waits key own stream held last (feed r policy now pkt e)
    idles :
        {own : List Turn} {stream : Bytes} {held : List Packet} {last : ℕ} {e : Extractor R}
        (now : ℕ)
        → Waits key own stream held last e
        → now - last < wait_idle_timeout
        → Waits key own stream held last (tick r policy now e)
    hands_over :
        {own : List Turn} {stream : Bytes} {held : List Packet} {last : ℕ} {e : Extractor R}
        → Waits key own stream held last e
        → Waits key own stream held last (record e { decided = [] })

  -- What the extractor has of a flow that has been followed.
  pub record IsFollowed (key : ℕ) (own : List Turn) (stream : Bytes) (held : List Packet) (last : ℕ)
      (e : Extractor R) : Type 0 where
    pub tidy : IsTidy e.conns
    pub idle : e.feeding ≡ false
    pub in_table : IsWaiting key stream held last e.conns
    pub asks : hostname_in stream ≡ need_more
    pub stream_is : stream ≡ spoken own
    pub held_ids : ids held ≡ payload_ids own

  pub young :
      (now key : ℕ) {stream : Bytes} {held : List Packet} {last : ℕ} (m : List (ℕ × Conn))
      → (w : IsWaiting key stream held last m) → now - last < wait_idle_timeout
      → is_expired now w.entry ≡ false
  unfolding is_expired
  young now key m w soon = simp (w.waits, w.same_last) (ground arith)

  -- A packet of a flow that has been followed.
  pub turn-Shows :
      {key : ℕ} {own : List Turn} {stream : Bytes} {held : List Packet} {last : ℕ} {e : Extractor R}
      (now : ℕ) (pkt : Packet) (f : FlowView)
      → IsFollowed key own stream held last e
      → now - last < wait_idle_timeout
      → tcp_flow pkt ≡ some f
      → f.key ≡ key
      → Shows r policy
          (tick r policy now e).decided
          key
          now
          (observe policy f pkt (callbacks r policy now pkt e) stream held)
          (feed r policy now pkt e)
  turn-Shows {key} {own} {stream} {held} {last} {e} now pkt f h soon is_tcp same =
      let w = h.in_table in
      let xs = callbacks r policy now pkt e in
      let there = subst (λ k. find k e.conns ≡ some w.entry) (sym same) w.there in
      let shown =
        feed-Shows r policy now pkt f w.entry e h.tidy h.idle is_tcp there w.waits
          (young now key e.conns w soon) in
      subst
        (λ k.
          Shows r policy (tick r policy now e).decided k now (observe policy f pkt xs stream held)
            (feed r policy now pkt e))
        same
        (subst
          (λ s.
            Shows r policy (tick r policy now e).decided f.key now (observe policy f pkt xs s held)
              (feed r policy now pkt e))
          w.same_stream
          (subst
            (λ ps.
              Shows r policy (tick r policy now e).decided f.key now
                (observe policy f pkt xs w.entry.stream ps) (feed r policy now pkt e))
            w.same_held shown))

  spared :
      {key : ℕ} {own : List Turn} {stream : Bytes} {held : List Packet} {last : ℕ} {e : Extractor R}
      (g : Extractor R)
      → (h : IsFollowed key own stream held last e) → IsTidy g.conns
      → (find key g.conns ≡ some h.in_table.entry) × (g.feeding ≡ false)
      → IsFollowed key own stream held last g
  spared g h t (there, idle) = record {
    tidy = t;
    idle = idle;
    in_table = record {
      entry = h.in_table.entry;
      there = there;
      waits = h.in_table.waits;
      same_stream = h.in_table.same_stream;
      same_held = h.in_table.same_held;
      same_last = h.in_table.same_last;
    };
    asks = h.asks;
    stream_is = h.stream_is;
    held_ids = h.held_ids;
  }

  -- A flow has been followed from its first packet on, which started it in a tidy table with room, between
  -- two packets; since then the extractor has been fed its packets and those of other flows, has ticked,
  -- and has handed its verdicts over, each feed and tick less than 10 seconds behind the flow's last
  -- packet; and on its own the flow waits on after each of its packets. Then it waits in the table: with
  -- the same stream, which is all that the client has said in its packets, and which has no hostname yet,
  -- and with the same held packets, which are its packets that have bytes, once each and in order.
  pub Waits-IsFollowed :
      {key : ℕ} {own : List Turn} {stream : Bytes} {held : List Packet} {last : ℕ} {e : Extractor R}
      → Waits key own stream held last e
      → IsFollowed key own stream held last e
  Waits-IsFollowed {key}
        (opens {stream} {held} {out} e now pkt f t idle is_tcp same new starts room is) =
      let ds = (tick r policy now e).decided in
      let after = feed r policy now pkt e in
      let new' = subst (λ k. find k e.conns ≡ none) (sym same) new in
      let shown =
        subst (λ k. Shows r policy ds k now (waits_on stream held out) after) same
          (subst (λ o. Shows r policy ds f.key now o after) is
            (feed_first-Shows r policy now pkt f e t idle is_tcp new' starts room)) in
      let heard = observe-IsHeard f pkt _ [] [] policy _ _ _ hostname_in-empty is in
      record {
        tidy = (feed-Fed r policy 0 now pkt e t).tidy;
        idle = shown.2;
        in_table = shown.0;
        asks = heard.asks;
        stream_is = heard.longer_is ∙ sym (append-nil (said f (callbacks r policy now pkt e)));
        held_ids = heard.kept_ids ∙ sym (append-nil (payload_id f pkt));
      }
  Waits-IsFollowed {key}
        (hears {own} {stream} {held = held} {e = e} now pkt f way soon is_tcp same is) =
      let h = Waits-IsFollowed way in
      let turn : Turn = record { pkt = pkt; view = f; events = callbacks r policy now pkt e } in
      let shown =
        subst
          (λ o. Shows r policy (tick r policy now e).decided key now o (feed r policy now pkt e)) is
          (turn-Shows now pkt f h soon is_tcp same) in
      let heard = observe-IsHeard f pkt _ stream held policy _ _ _ h.asks is in
      record {
        tidy = (feed-Fed r policy 0 now pkt e h.tidy).tidy;
        idle = shown.2;
        in_table = shown.0;
        asks = heard.asks;
        stream_is =
            heard.longer_is
            ∙ ap (λ s. s ++ said f turn.events) h.stream_is
            ∙ ap (λ s. spoken own ++ s) (sym (append-nil (said f turn.events)))
            ∙ sym (spoken-append own (turn ∷ []));
        held_ids =
            heard.kept_ids
            ∙ ap (λ s. s ++ payload_id f pkt) h.held_ids
            ∙ ap (λ s. payload_ids own ++ s) (sym (append-nil (payload_id f pkt)))
            ∙ sym (payload_ids-append own (turn ∷ []));
      }
  Waits-IsFollowed {key} (passes {e = e} now pkt way soon others) =
      let h = Waits-IsFollowed way in
      spared (feed r policy now pkt e) h (feed-Fed r policy 0 now pkt e h.tidy).tidy (
        feed-spares r policy now key pkt h.in_table.entry e h.tidy h.idle h.in_table.there
          h.in_table.waits (young now key e.conns h.in_table soon) others)
  Waits-IsFollowed {key} (idles {e = e} now way soon) =
      let h = Waits-IsFollowed way in
      spared (tick r policy now e) h (tick-Kept r policy 0 now e h.tidy).tidy (
        tick-spares r policy now key h.in_table.entry e h.tidy h.idle h.in_table.there
          h.in_table.waits (young now key e.conns h.in_table soon))
  Waits-IsFollowed (hands_over {e = e} way) =
      let h = Waits-IsFollowed way in
      spared (record e { decided = [] }) h h.tidy (h.in_table.there, h.idle)
