-- ===== src/Extractor/Followed/Observed.antt =====
-- A packet of a flow that waits, in `track` of src/hostname_extractor.cpp and on its own.
use packet_inspector.Base.{ℕ, ◌≡◌, refl, ap, true, false, Option, some, List, [], ◌++◌, Bytes}
use packet_inspector.Packet.{Packet, Verdict, allow, block}
use packet_inspector.Extractor.Table.{find}
use packet_inspector.Extractor.State.{waiting, Conn, Decided, Event, Reassembler, Extractor}
use packet_inspector.Extractor.Feed.{
  release_last, raw_bytes, call, drain_closes, release_held, reassemble_packet,
}
use packet_inspector.Extractor.Conserve.Tables.{IsTidy, find-update_self}
use packet_inspector.Extractor.Resolved.{decided_with}
use packet_inspector.Extractor.Fresh.{close_all_idle}
use packet_inspector.Extractor.Followed.{Course, reading, settled, hear, IsWaiting, IsLeft}
use packet_inspector.Extractor.Followed.Heard.{Follows, dispatch_all-Follows}

module _ {ℓ} {R : Type ℓ} (r : Reassembler R) (policy : Option Bytes → Verdict) where
  drain_idle :
      (e : Extractor R)
      → e.feeding ≡ false
      → (s : R) × (drain_closes r policy e ≡ record e { reassembly = s; to_close = [] })
  unfolding drain_closes
  drain_idle e idle =
      let closed = close_all_idle r policy e.to_close e idle in
      (closed.0, rw (drain_closes, closed.1) refl)

  -- After a packet has been in the reassembler.
  abbrev pub Rests : List Decided → ℕ → List Packet → ℕ → Course → Extractor R → Type 0
  Rests ds key held last (reading stream) f =
      IsWaiting key stream held last f.conns × (f.decided ≡ ds) × (f.feeding ≡ false)
  Rests ds key held last (settled hostname) f =
      IsLeft (policy hostname) key f.conns
      × (f.decided ≡ ds ++ decided_with (policy hostname) held)
      × (f.feeding ≡ false)

  call-Follows :
      (key : ℕ) (result : List Event × R) (c : Conn) (e : Extractor R)
      → IsTidy e.conns
      → find key e.conns ≡ some c
      → c.state ≡ waiting
      → Follows policy e.decided key c.held c.last
          (hear result.0 c.stream)
          (call r policy result (record e { current_key = key; feeding = true }))
  unfolding call
  call-Follows key (events, next) c e t there is =
      dispatch_all-Follows policy events c
        (record e { reassembly = next; current_key = key; feeding = true }) t refl there is

  drained :
      (ds : List Decided) (key : ℕ) (held : List Packet) (last : ℕ) (course : Course)
      (f : Extractor R)
      → Follows policy ds key held last course f
      → Rests ds key held last course (drain_closes r policy (record f { feeding = false }))
  drained ds key held last (reading stream) f h =
      rw (drain_idle (record f { feeding = false }) refl).1 (h.0, h.1, refl)
  drained ds key held last (settled hostname) f h =
      rw (drain_idle (record f { feeding = false }) refl).1 (h.left, h.same_decided, refl)

  pub reassemble_packet-Rests :
      (key : ℕ) (pkt : Packet) (c : Conn) (e : Extractor R)
      → IsTidy e.conns
      → find key e.conns ≡ some c
      → c.state ≡ waiting
      → Rests e.decided key c.held c.last
          (hear (r.reassemble (raw_bytes pkt) e.reassembly).0 c.stream)
          (reassemble_packet r policy key pkt e)
  unfolding reassemble_packet
  reassemble_packet-Rests key pkt c e t there is =
      drained e.decided key c.held c.last _ _
        (call-Follows key (r.reassemble (raw_bytes pkt) e.reassembly) c e t there is)

  pub release_held-Rests :
      (ds : List Decided) (key : ℕ) (held : List Packet) (last : ℕ) (stream : Bytes)
      (e : Extractor R)
      → Rests ds key held last (reading stream) e
      → Rests ds key (release_last held) last (reading stream) (release_held r policy key e)
  unfolding release_held
  release_held-Rests ds key held last stream e (w, same, idle) =
      rw (w.there, release_held)
        (
          record {
            entry = record w.entry { held = release_last w.entry.held };
            there = find-update_self key _ e.conns w.there;
            waits = w.waits;
            same_stream = w.same_stream;
            same_held = ap release_last w.same_held;
            same_last = w.same_last;
          },
          same,
          idle,
        )

  pub release_held-IsLeft :
      (v : Verdict) (key : ℕ) (e : Extractor R)
      → IsLeft v key e.conns
      → IsLeft v key (release_held r policy key e).conns
        × ((release_held r policy key e).decided ≡ e.decided)
        × ((release_held r policy key e).feeding ≡ e.feeding)
  unfolding release_held
  release_held-IsLeft allow key e gone = rw (gone, release_held) (gone, refl, refl)
  release_held-IsLeft block key e (c, there, is) =
      let w = record c { held = release_last c.held } in
      rw (there, release_held) ((w, find-update_self key w e.conns there, is), refl, refl)
