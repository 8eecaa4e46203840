-- ===== src/Extractor/Stable.antt =====
-- An induction principle over the extractor: what has to be shown of a predicate on its flows, verdicts
-- and ring, so that every operation of src/hostname_extractor.cpp keeps it.
pub mod Callbacks
pub mod Sweep
pub mod Track
pub mod Feed
use packet_inspector.Base.{
  ℕ, ◌≡◌, Bool, true, false, Option, none, some, List, [], ◌∷◌, ◌++◌, Bytes, All,
}
use packet_inspector.Packet.{Packet, Verdict, allow, block}
use packet_inspector.Tls.Records.{found}
use packet_inspector.Extractor.Table.{find, erase, update, insert}
use packet_inspector.Extractor.State.{
  waiting, blocking, Conn, new_conn, Decided, Event, connection_start, message_ready,
  connection_end, Extractor,
}
use packet_inspector.Extractor.Ring.{park, evict_oldest_blocked}
use packet_inspector.Extractor.Callbacks.{hostname_in, resolve_conn}
use packet_inspector.Extractor.Feed.{expired}
use packet_inspector.Extractor.Conserve.Tables.{IsTidy}

-- The part of the state that such a predicate is about.
pub record Core : Type 0 where
  pub decided : List Decided
  pub conns : List (ℕ × Conn)
  pub max_blocked : ℕ
  pub block_ring : List ℕ
  pub block_next : ℕ
  pub current_key : ℕ
  pub feeding : Bool

abbrev pub core {ℓ} : {R : Type ℓ} → Extractor R → Core
core e = record {
  decided = e.decided;
  conns = e.conns;
  max_blocked = e.max_blocked;
  block_ring = e.block_ring;
  block_next = e.block_next;
  current_key = e.current_key;
  feeding = e.feeding;
}

-- A flow is resolved with no hostname, or with the one that its own stream has.
abbrev pub Learned : Conn → Option Bytes → Type 0
Learned c none = Unit {0}
Learned c (some host) = hostname_in c.stream ≡ found host

-- What the reassembler has delivered for a flow, and the packets that were fed of it, by their ids.
pub data Assembled {ι} (Heard : ℕ → Bytes → Type ι) (key : ℕ) : Bytes → Type ι where
  nothing : Assembled Heard key []
  more :
      {stream : Bytes} (bytes : Bytes)
      → Assembled Heard key stream
      → Heard key bytes
      → Assembled Heard key (stream ++ bytes)

abbrev pub AllSent {σ} : (ℕ → ℕ → Type σ) → ℕ → List Packet → Type σ
AllSent Sent key pkts = All (λ pkt. Sent key pkt.id) pkts

-- The changes of an entry, but for its decision.
pub record Grows {ι σ} (Heard : ℕ → Bytes → Type ι) (Sent : ℕ → ℕ → Type σ) (key : ℕ) (c w : Conn)
    : Type (ι ⊔ σ) where
  pub same_state : w.state ≡ c.state
  pub stream_grows : Assembled Heard key c.stream → Assembled Heard key w.stream
  pub held_grows : AllSent Sent key c.held → AllSent Sent key w.held

-- The flows that may be worked on, the times at which a sweep may run, and whether a flush may.
pub record Scope : Type 1 where
  pub may : ℕ → Type 0
  pub timely : ℕ → Type 0
  pub ends : Type 0

abbrev pub AnyKey : ℕ → Type 0
AnyKey key = Unit

abbrev pub everything : Scope
everything = record { may = AnyKey; timely = AnyKey; ends = Unit }

pub All-AnyKey : (ks : List ℕ) → All AnyKey ks
All-AnyKey [] = tt
All-AnyKey (k ∷ ks) = (tt, All-AnyKey ks)

-- Each step that changes the part that the predicate is about.
pub record IsStable {ℓ ι σ κ} (R : Type ℓ) (policy : Option Bytes → Verdict)
    (Heard : ℕ → Bytes → Type ι) (Sent : ℕ → ℕ → Type σ) (scope : Scope) (P : Core → Type κ)
    : Type (ℓ ⊔ ι ⊔ σ ⊔ κ) where
  pub aware : (s : Core) → P s → s.feeding ≡ true → scope.may s.current_key
  pub aged :
      (now : ℕ) (s : Core)
      → scope.timely now
      → IsTidy s.conns
      → P s
      → All scope.may (expired now s.conns)
  pub write :
      (key : ℕ) (c w : Conn) (e : Extractor R)
      → scope.may key
      → IsTidy e.conns
      → find key e.conns ≡ some c
      → Grows Heard Sent key c w
      → P (core e)
      → P (core (record e { conns = update key w e.conns }))
  pub add :
      (key : ℕ) (e : Extractor R)
      → scope.may key
      → find key e.conns ≡ none
      → P (core e)
      → P (core (record e { conns = insert key new_conn e.conns }))
  pub forget :
      (key : ℕ) (c : Conn) (e : Extractor R)
      → IsTidy e.conns
      → find key e.conns ≡ some c
      → c.state ≡ blocking
      → P (core e)
      → P (core (record e { conns = erase key e.conns }))
  pub let_go : (pkt : Packet) (e : Extractor R) → P (core e) → P (core (park pkt allow e))
  pub drop_packet :
      (pkt : Packet) (key : ℕ) (c : Conn) (e : Extractor R)
      → find key e.conns ≡ some c
      → c.state ≡ blocking
      → Sent key pkt.id
      → P (core e)
      → P (core (park pkt block e))
  pub settle_flow :
      (key : ℕ) (hostname : Option Bytes) (c : Conn) (e : Extractor R)
      → scope.may key
      → IsTidy e.conns
      → find key e.conns ≡ some c
      → c.state ≡ waiting
      → Learned c hostname
      → P (core e)
      → P (core (resolve_conn policy key hostname c e))
  pub make_space :
      (e : Extractor R) → IsTidy e.conns → P (core e) → P (core (evict_oldest_blocked e).0)
  pub clear : (e : Extractor R) → scope.ends → P (core e) → P (core (record e { conns = [] }))

-- An event whose bytes are the client's, of the flow that is being fed, if one is.
abbrev pub Hearable {ι κ} : (ℕ → Bytes → Type ι) → (Core → Type κ) → Event → Type (ι ⊔ κ)
Hearable Heard P (message_ready side flow_key bytes) =
    (s : Core) → P s → s.feeding ≡ true → side ≡ 0 → Heard s.current_key bytes
Hearable Heard P (connection_start flow_key) = Unit
Hearable Heard P connection_end = Unit

abbrev pub HeardEvent {ι} : (ℕ → Bytes → Type ι) → ℕ → Event → Type ι
HeardEvent Heard key (message_ready side flow_key bytes) = side ≡ 0 → Heard key bytes
HeardEvent Heard key (connection_start flow_key) = Unit
HeardEvent Heard key connection_end = Unit

-- The predicate while no packet is in the reassembler, and while one of the flow `key` is.
pub record IsGuarded {ℓ ι σ κ} (R : Type ℓ) (policy : Option Bytes → Verdict)
    (Heard : ℕ → Bytes → Type ι) (Sent : ℕ → ℕ → Type σ) (scope : Scope)
    (P : Option ℕ → Core → Type κ) : Type (ℓ ⊔ ι ⊔ σ ⊔ κ) where
  pub stable : (mode : Option ℕ) → IsStable R policy Heard Sent scope (P mode)
  pub enter :
      (key : ℕ) (e : Extractor R)
      → scope.may key
      → P none (core e)
      → P (some key) (core (record e { current_key = key; feeding = true }))
  pub leave :
      (key : ℕ) (e : Extractor R)
      → P (some key) (core e)
      → P none (core (record e { feeding = false }))
  pub deaf : (s : Core) (bytes : Bytes) → P none s → s.feeding ≡ true → Heard s.current_key bytes
  pub tuned :
      (key : ℕ) (s : Core) (bytes : Bytes)
      → P (some key) s
      → Heard key bytes
      → Heard s.current_key bytes

-- For a predicate to which the packets and their bytes do not matter.
abbrev pub AnyBytes : ℕ → Bytes → Type 0
AnyBytes key bytes = Unit

abbrev pub AnyPacket : ℕ → ℕ → Type 0
AnyPacket key id = Unit

pub any_events : (key : ℕ) (xs : List Event) → All (HeardEvent AnyBytes key) xs
any_events key [] = tt
any_events key (connection_start flow_key ∷ xs) = (tt, any_events key xs)
any_events key (message_ready side flow_key bytes ∷ xs) = ((λ client. tt), any_events key xs)
any_events key (connection_end ∷ xs) = (tt, any_events key xs)
