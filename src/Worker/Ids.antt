-- ===== src/Worker/Ids.antt =====
-- As many packets as verdicts: the ids of the packets that src/NFQueue.cpp hands over, and of those that
-- it answers.
use packet_inspector.Base.{
  ℕ, suc, ◌+◌, ◌<◌, ◌≡◌, refl, ap, sym, ◌∙◌, inl, inr, true, Option, none, some, List, [], ◌∷◌,
  ◌++◌, arith, ◌==◌, if◌then◌else◌, Bool-cases, length, length-append, ltb, Bytes,
}
use packet_inspector.Packet.{Verdict}
use packet_inspector.Extractor.Conserve.Tables.{has_id}
use packet_inspector.Worker.{Arrival, arrival_id, view_of, arrived_packet}
use packet_inspector.Worker.Answers.{count_answers, count_arrivals, count_turns}

-- How often the number stands in the list.
abbrev occurs : ℕ → List ℕ → ℕ
occurs i [] = 0
occurs i (x ∷ xs) = (if x == i then 1 else 0) + occurs i xs

-- Without its first `i`.
abbrev without : ℕ → List ℕ → List ℕ
without i [] = []
without i (x ∷ xs) = let rest = without i xs in if x == i then xs else x ∷ rest

length-without : (i : ℕ) (xs : List ℕ) → 0 < occurs i xs → length xs ≡ suc (length (without i xs))
length-without i [] h = absurd (omega arith)
length-without i (x ∷ xs) h = elim (Bool-cases (x == i)) [
  | inl hit ↦ rw hit refl
  | inr miss ↦
      rw miss (let later = rw miss at h in ap suc (length-without i xs (omega (arith, later))))
]

occurs-without :
    (i j : ℕ) (xs : List ℕ)
    → 0 < occurs i xs
    → occurs j xs ≡ (if i == j then 1 else 0) + occurs j (without i xs)
occurs-without i j [] h = absurd (omega arith)
occurs-without i j (x ∷ xs) h = elim (Bool-cases (x == i)) [
  | inl hit ↦ let same : x ≡ i = ground arith in rw hit (rw same refl)
  | inr miss ↦
      let later = rw miss at h in
      let rest = occurs-without i j xs (omega (arith, later)) in rw miss (omega (arith, rest))
]

-- Lists that have each number as often are as long.
same_length : (xs ys : List ℕ) → ((i : ℕ) → occurs i xs ≡ occurs i ys) → length xs ≡ length ys
same_length [] [] h = refl
same_length [] (y ∷ ys) h = let one = h y in absurd (ground (arith, one))
same_length (x ∷ xs) ys h =
    let self : (x == x) ≡ true = ground arith in
    let first = h x in
    let one = rw self at first in
    let here : 0 < occurs x ys = omega (arith, one) in
    ap suc (
      same_length xs (without x ys)
        λ j. let o = occurs-without x j ys here in omega (arith, h j, o))
    ∙ sym (length-without x ys here)

answered_ids : List (ℕ × Verdict) → List ℕ
answered_ids [] = []
answered_ids ((j, v) ∷ rest) = j ∷ answered_ids rest

arrived_ids : List Arrival → List ℕ
arrived_ids [] = []
arrived_ids (a ∷ rest) = arrival_id a.header ∷ arrived_ids rest

turn_ids : List (List Arrival × ℕ) → List ℕ
turn_ids [] = []
turn_ids ((arrivals, now) ∷ turns) = arrived_ids arrivals ++ turn_ids turns

-- How many packets arrive in the turns.
abbrev pub arrived : List (List Arrival × ℕ) → ℕ
arrived [] = 0
arrived ((arrivals, now) ∷ turns) = length arrivals + arrived turns

occurs-append : (i : ℕ) (xs ys : List ℕ) → occurs i (xs ++ ys) ≡ occurs i xs + occurs i ys
occurs-append i [] ys = omega arith
occurs-append i (x ∷ xs) ys = omega (arith, occurs-append i xs ys)

answers-occurs : (i : ℕ) (xs : List (ℕ × Verdict)) → count_answers i xs ≡ occurs i (answered_ids xs)
unfolding answered_ids
answers-occurs i [] = refl
answers-occurs i ((j, v) ∷ xs) = omega (arith, answers-occurs i xs)

-- Each packet is owed a verdict when it arrives.
has_id-arrived :
    (i : ℕ) (a : Arrival)
    → has_id i (arrived_packet a) ≡ (if arrival_id a.header == i then 1 else 0)
unfolding arrived_packet view_of
has_id-arrived i a = view a.payload a.len (arrival_id a.header)
  where
    view :
        (payload : Option Bytes) (len id : ℕ)
        → has_id i (view_of payload len id) ≡ (if id == i then 1 else 0)
    view none len id = refl
    view (some bytes) len id = elim (Bool-cases (ltb 0 len)) [
      | inl filled ↦ rw filled refl
      | inr empty ↦ rw empty refl
    ]

arrivals-occurs : (i : ℕ) (xs : List Arrival) → count_arrivals i xs ≡ occurs i (arrived_ids xs)
unfolding arrived_ids
arrivals-occurs i [] = refl
arrivals-occurs i (a ∷ xs) = omega (arith, has_id-arrived i a, arrivals-occurs i xs)

turns-occurs : (i : ℕ) (ts : List (List Arrival × ℕ)) → count_turns i ts ≡ occurs i (turn_ids ts)
unfolding turn_ids
turns-occurs i [] = refl
turns-occurs i ((arrivals, now) ∷ ts) = omega (
  arith,
  arrivals-occurs i arrivals,
  turns-occurs i ts,
  occurs-append i (arrived_ids arrivals) (turn_ids ts),
)

length-answered_ids : (xs : List (ℕ × Verdict)) → length (answered_ids xs) ≡ length xs
unfolding answered_ids
length-answered_ids [] = refl
length-answered_ids ((j, v) ∷ xs) = ap suc (length-answered_ids xs)

length-arrived_ids : (xs : List Arrival) → length (arrived_ids xs) ≡ length xs
unfolding arrived_ids
length-arrived_ids [] = refl
length-arrived_ids (a ∷ xs) = ap suc (length-arrived_ids xs)

length-turn_ids : (ts : List (List Arrival × ℕ)) → length (turn_ids ts) ≡ arrived ts
unfolding turn_ids
length-turn_ids [] = refl
length-turn_ids ((arrivals, now) ∷ ts) = omega (
  arith,
  length-append (arrived_ids arrivals) (turn_ids ts),
  length-arrived_ids arrivals,
  length-turn_ids ts,
)

-- If every id is answered as often as it arrives, there are as many verdicts as packets.
pub answered-arrived :
    (answered : List (ℕ × Verdict)) (ts : List (List Arrival × ℕ))
    → ((i : ℕ) → count_answers i answered ≡ count_turns i ts)
    → length answered ≡ arrived ts
answered-arrived answered ts same =
    sym (length-answered_ids answered)
    ∙ same_length (answered_ids answered) (turn_ids ts)
        (λ i. sym (answers-occurs i answered) ∙ same i ∙ turns-occurs i ts)
    ∙ length-turn_ids ts
