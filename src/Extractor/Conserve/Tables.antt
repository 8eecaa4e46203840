-- ===== src/Extractor/Conserve/Tables.antt =====
-- Counting the packets of a table; what a tidy table is.
use packet_inspector.Base.{
  ℕ, ◌+◌, ◌≤◌, ◌≡◌, refl, inl, inr, ◌&&◌, none, some, List, [], ◌∷◌, ◌++◌, arith, ◌==◌,
  if◌then◌else◌, Bool-cases, length,
}
use packet_inspector.Packet.{Packet}
use packet_inspector.Extractor.Table.{find, erase, update, insert}
use packet_inspector.Extractor.State.{blocking, Conn, Decided, Extractor}

-- 1 for a packet `i` that is owed a verdict, 0 for any other.
abbrev pub has_id : ℕ → Packet → ℕ
has_id i pkt = if pkt.pending && pkt.id == i then 1 else 0

abbrev pub count_packets : ℕ → List Packet → ℕ
count_packets i [] = 0
count_packets i (pkt ∷ pkts) = has_id i pkt + count_packets i pkts

abbrev pub count_decided : ℕ → List Decided → ℕ
count_decided i [] = 0
count_decided i (d ∷ ds) = has_id i d.pkt + count_decided i ds

abbrev pub count_held : ℕ → List (ℕ × Conn) → ℕ
count_held i [] = 0
count_held i ((k, c) ∷ m) = count_packets i c.held + count_held i m

-- How often the extractor has the packet `i`, decided or held.
abbrev pub times {ℓ} : {R : Type ℓ} → ℕ → Extractor R → ℕ
times i e = count_decided i e.decided + count_held i e.conns

abbrev pub IsTidyConn : Conn → Type 0
IsTidyConn c = c.state ≡ blocking → c.held ≡ []

-- Blocked flows hold nothing, and no two entries have one key.
abbrev pub IsTidy : List (ℕ × Conn) → Type 0
IsTidy [] = Unit {0}
IsTidy ((k, c) ∷ m) = IsTidyConn c × (find k m ≡ none) × IsTidy m

pub count_packets-append :
    (i : ℕ) (xs ys : List Packet)
    → count_packets i (xs ++ ys) ≡ count_packets i xs + count_packets i ys
count_packets-append i [] ys = omega arith
count_packets-append i (x ∷ xs) ys = omega (arith, count_packets-append i xs ys)

pub count_decided-append :
    (i : ℕ) (xs ys : List Decided)
    → count_decided i (xs ++ ys) ≡ count_decided i xs + count_decided i ys
count_decided-append i [] ys = omega arith
count_decided-append i (x ∷ xs) ys = omega (arith, count_decided-append i xs ys)

module _ (i k : ℕ) {c : Conn} where
  pub count_held-erase :
      (m : List (ℕ × Conn))
      → find k m ≡ some c
      → count_held i m ≡ count_packets i c.held + count_held i (erase k m)
  unfolding find erase
  count_held-erase [] e = cc
  count_held-erase ((j, d) ∷ m) e = elim (Bool-cases (j == k)) [
    | inl hit ↦ ground (arith, hit)
    | inr miss ↦ rw miss (omega (arith, count_held-erase m (rw miss at e)))
  ]

  pub count_held-update :
      (w : Conn) (m : List (ℕ × Conn))
      → find k m ≡ some c
      → count_held i (update k w m) + count_packets i c.held
        ≡ count_packets i w.held + count_held i m
  unfolding find update
  count_held-update w [] e = cc
  count_held-update w ((j, d) ∷ m) e = elim (Bool-cases (j == k)) [
    | inl hit ↦ ground (arith, hit)
    | inr miss ↦ rw miss (omega (arith, count_held-update w m (rw miss at e)))
  ]

pub length-erase-le : (k : ℕ) (m : List (ℕ × Conn)) → length (erase k m) ≤ length m
unfolding erase
length-erase-le k [] = omega arith
length-erase-le k ((j, d) ∷ m) = ground (arith, length-erase-le k m)

pub length-update : (k : ℕ) (w : Conn) (m : List (ℕ × Conn)) → length (update k w m) ≡ length m
unfolding update
length-update k w [] = refl
length-update k w ((j, d) ∷ m) = ground (arith, length-update k w m)

pub find-erase-none : (k j : ℕ) (m : List (ℕ × Conn)) → find k m ≡ none → find k (erase j m) ≡ none
unfolding find erase
find-erase-none k j [] e = refl
find-erase-none k j ((l, d) ∷ m) e = ground (arith, find-erase-none k j m)

pub find-update-none :
    (k j : ℕ) (w : Conn) (m : List (ℕ × Conn)) → find k m ≡ none → find k (update j w m) ≡ none
unfolding find update
find-update-none k j w [] e = refl
find-update-none k j w ((l, d) ∷ m) e = ground (arith, find-update-none k j w m)

pub insert-IsTidy :
    (k : ℕ) (w : Conn) (m : List (ℕ × Conn))
    → IsTidyConn w
    → find k m ≡ none
    → IsTidy m
    → IsTidy (insert k w m)
unfolding insert
insert-IsTidy k w m tw new t = (tw, new, t)

pub erase-IsTidy : (k : ℕ) (m : List (ℕ × Conn)) → IsTidy m → IsTidy (erase k m)
unfolding erase
erase-IsTidy k [] t = tt
erase-IsTidy k ((j, d) ∷ m) t = elim (Bool-cases (j == k)) [
  | inl hit ↦ rw hit t.2
  | inr miss ↦ rw miss (t.0, find-erase-none j k m t.1, erase-IsTidy k m t.2)
]

pub update-IsTidy :
    (k : ℕ) (w : Conn) (m : List (ℕ × Conn)) → IsTidyConn w → IsTidy m → IsTidy (update k w m)
unfolding update
update-IsTidy k w [] tw t = tt
update-IsTidy k w ((j, d) ∷ m) tw t = elim (Bool-cases (j == k)) [
  | inl hit ↦ rw hit (tw, t.1, t.2)
  | inr miss ↦ rw miss (t.0, find-update-none j k w m t.1, update-IsTidy k w m tw t.2)
]

pub find-IsTidy :
    (k : ℕ) {c : Conn} (m : List (ℕ × Conn)) → find k m ≡ some c → IsTidy m → IsTidyConn c
unfolding find
find-IsTidy k [] e t = cc
find-IsTidy k {c} ((j, d) ∷ m) e t = elim (Bool-cases (j == k)) [
  | inl hit ↦ let same : d ≡ c = ground arith in rw same at t.0
  | inr miss ↦ find-IsTidy k m (rw miss at e) t.2
]

pub find-update_self :
    (k : ℕ) (w : Conn) {c : Conn} (m : List (ℕ × Conn))
    → find k m ≡ some c
    → find k (update k w m) ≡ some w
unfolding find update
find-update_self k w [] e = cc
find-update_self k w ((j, d) ∷ m) e = elim (Bool-cases (j == k)) [
  | inl hit ↦ ground (arith, hit)
  | inr miss ↦ rw miss (rw miss (find-update_self k w m (rw miss at e)))
]

pub find-insert_self : (k : ℕ) (w : Conn) (m : List (ℕ × Conn)) → find k (insert k w m) ≡ some w
unfolding find insert
find-insert_self k w m = ground arith

pub count_held-insert :
    (i k : ℕ) (w : Conn) (m : List (ℕ × Conn))
    → count_held i (insert k w m) ≡ count_packets i w.held + count_held i m
unfolding insert
count_held-insert i k w m = refl

pub length-insert : (k : ℕ) (w : Conn) (m : List (ℕ × Conn)) → length (insert k w m) ≡ length m + 1
unfolding insert
length-insert k w m = omega arith
