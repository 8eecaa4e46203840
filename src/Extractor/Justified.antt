-- ===== src/Extractor/Justified.antt =====
-- What a packet has been dropped for: the bookkeeping of src/hostname_extractor.cpp, from the callbacks
-- of the reassembler to the verdicts.
pub mod Log
pub mod Steps
pub mod Fed
use packet_inspector.Base.{
  ℕ, ◌≡◌, refl, sym, ◌∙◌, inl, inr, Bool, true, false, not, ◌&&◌, Option, none, some, List, [], ◌∷◌,
  ◌++◌, arith, ◌==◌, Bool-cases, Bytes, All, All-append,
}
use packet_inspector.Packet.{Packet, Verdict, allow, block}
use packet_inspector.Tls.Records.{found}
use packet_inspector.Extractor.Table.{find}
use packet_inspector.Extractor.State.{blocking, Conn, Decided, Extractor}
use packet_inspector.Extractor.Callbacks.{hostname_in}
use packet_inspector.Extractor.Stable.{Core, core, Assembled, AllSent}

-- No packet, or a packet of the flow `key`, is in the reassembler.
abbrev pub IsMode : Option ℕ → Core → Type 0
IsMode none s = s.feeding ≡ false
IsMode (some key) s = s.current_key ≡ key

module _ {ι σ} (policy : Option Bytes → Verdict) (Heard : ℕ → Bytes → Type ι)
    (Sent : ℕ → ℕ → Type σ) where
  -- What was delivered for the flow has a hostname that the policy blocks.
  pub record IsGuilty (key : ℕ) : Type ι where
    pub stream : Bytes
    pub host : Bytes
    pub assembled : Assembled Heard key stream
    pub named : hostname_in stream ≡ found host
    pub blocked : policy (some host) ≡ block

  -- A packet that was fed of such a flow.
  pub record IsCondemned (id : ℕ) : Type (ι ⊔ σ) where
    pub key : ℕ
    pub sent : Sent key id
    pub guilty : IsGuilty key

  pub record IsJustConn (key : ℕ) (c : Conn) : Type (ι ⊔ σ) where
    pub assembled : Assembled Heard key c.stream
    pub sent : AllSent Sent key c.held
    pub guilty : c.state ≡ blocking → IsGuilty key

  abbrev pub AllCondemned : List Decided → Type (ι ⊔ σ)
  AllCondemned ds = All (λ d. d.verdict ≡ block → IsCondemned d.pkt.id) ds

  pub record IsJust (mode : Option ℕ) (s : Core) : Type (ι ⊔ σ) where
    pub verdicts : AllCondemned s.decided
    pub flows : (k : ℕ) (c : Conn) → find k s.conns ≡ some c → IsJustConn k c
    pub in_mode : IsMode mode s
