-- ===== src/Extractor/Blocked/Turned.antt =====
-- A ring of slots, read from one slot on and around to it; the ring of src/hostname_extractor.cpp is one.
use packet_inspector.Base.{
  ℕ, zero, suc, ◌+◌, ◌%◌, ◌<◌, ◌≡◌, ◌≢◌, refl, sym, ap, ◌∙◌, Bool, true, false, List, [], ◌∷◌, ◌++◌,
  arith, append_assoc, append-nil, length, get_or, set, take, drop, replicate, All, length-append,
}

-- From the slot that is overwritten next, the oldest, to the youngest.
abbrev pub turned : ℕ → List ℕ → List ℕ
turned n ring = drop n ring ++ take n ring

abbrev pub behind : List ℕ → List ℕ
behind [] = []
behind (x ∷ xs) = xs

-- The slot `n` of a ring, between the slots before it and behind it.
record IsSplit (n : ℕ) (ring : List ℕ) : Type 0 where
  before : List ℕ
  slot : ℕ
  after : List ℕ
  whole : ring ≡ before ++ slot ∷ after
  place : n ≡ length before

split : (n : ℕ) (ring : List ℕ) → n < length ring → IsSplit n ring
split n [] h = absurd (omega arith)
split zero (x ∷ ring) h = record { before = []; slot = x; after = ring; whole = refl; place = refl }
split (suc n) (x ∷ ring) h =
    let s = split n ring (omega arith) in
    record {
      before = x ∷ s.before;
      slot = s.slot;
      after = s.after;
      whole = ap (◌∷◌ x) s.whole;
      place = ap suc s.place;
    }

drop-before : (xs ys : List ℕ) → drop (length xs) (xs ++ ys) ≡ ys
drop-before [] ys = refl
drop-before (x ∷ xs) ys = drop-before xs ys

take-before : (xs ys : List ℕ) → take (length xs) (xs ++ ys) ≡ xs
take-before [] ys = refl
take-before (x ∷ xs) ys = ap (◌∷◌ x) (take-before xs ys)

set-before : (xs ys : List ℕ) (x v : ℕ) → set (xs ++ x ∷ ys) (length xs) v ≡ xs ++ v ∷ ys
set-before [] ys x v = refl
set-before (y ∷ xs) ys x v = ap (◌∷◌ y) (set-before xs ys x v)

get_or-before : (xs ys : List ℕ) (x d : ℕ) → get_or (xs ++ x ∷ ys) (length xs) d ≡ x
get_or-before [] ys x d = refl
get_or-before (y ∷ xs) ys x d = get_or-before xs ys x d

turned-before : (xs ys : List ℕ) (x : ℕ) → turned (length xs) (xs ++ x ∷ ys) ≡ x ∷ (ys ++ xs)
turned-before xs ys x = rw (drop-before xs (x ∷ ys), take-before xs (x ∷ ys)) refl

mod_self : (n : ℕ) → (n + 1) % (n + 1) ≡ 0
mod_self n = grind arith

mod_small : (n m : ℕ) → n < m → n % m ≡ n
mod_small n m h = grind arith

-- The next slot behind a slot.
turned-next :
    (xs ys : List ℕ) (v : ℕ)
    → turned ((length xs + 1) % length (xs ++ v ∷ ys)) (xs ++ v ∷ ys) ≡ (ys ++ xs) ++ v ∷ []
turned-next xs [] v =
    let long = length-append xs (v ∷ []) in
    let first : (length xs + 1) % length (xs ++ v ∷ []) ≡ 0 = rw long (mod_self (length xs)) in
    rw first (append-nil (xs ++ v ∷ []))
turned-next xs (y ∷ ys) v =
    let long = length-append xs (v ∷ y ∷ ys) in
    let one = length-append xs (v ∷ []) in
    let next : (length xs + 1) % length (xs ++ v ∷ y ∷ ys) ≡ length (xs ++ v ∷ []) =
      mod_small (length xs + 1) _ (omega (arith, long)) ∙ (omega (arith, one)) in
    ap (λ n. turned n (xs ++ v ∷ y ∷ ys)) next
    ∙ ap (turned (length (xs ++ v ∷ []))) (sym (append_assoc xs (v ∷ []) (y ∷ ys)))
    ∙ turned-before (xs ++ v ∷ []) ys y
    ∙ ap (◌∷◌ y) (sym (append_assoc ys xs (v ∷ [])))

-- A slot that is overwritten: the oldest goes, and the new one is the youngest.
pub turned-set :
    (n v : ℕ) (ring : List ℕ)
    → n < length ring
    → (turned n ring ≡ get_or ring n 0 ∷ behind (turned n ring))
      × (turned ((n + 1) % length ring) (set ring n v) ≡ behind (turned n ring) ++ v ∷ [])
turned-set n v ring h =
    let s = split n ring h in
    let was = turned-before s.before s.after s.slot in
    let same_length = length-append s.before (s.slot ∷ s.after) in
    let new_length = length-append s.before (v ∷ s.after) in
    rw (s.whole, s.place)
      (
        was
            ∙ ap (λ x. x ∷ (s.after ++ s.before)) (sym (get_or-before s.before s.after s.slot 0))
            ∙ ap (λ q. get_or (s.before ++ s.slot ∷ s.after) (length s.before) 0 ∷ behind q)
                (sym was),
        ap
              (λ m.
                turned ((length s.before + 1) % m)
                  (set (s.before ++ s.slot ∷ s.after) (length s.before) v))
              (omega (arith, same_length, new_length))
            ∙ ap (turned ((length s.before + 1) % length (s.before ++ v ∷ s.after)))
                (set-before s.before s.after s.slot v)
            ∙ turned-next s.before s.after v
            ∙ ap (λ q. behind q ++ v ∷ []) (sym was),
      )

-- The first of the live keys is given up: its slot and the older ones are freed, and the others move up.
pub record GivesUp (live : ℕ → Bool) (victim : ℕ) (q q' : List ℕ) : Type 0 where
  pub dead : List ℕ
  pub rest : List ℕ
  pub order : q ≡ dead ++ victim ∷ rest
  pub dead_are : All (λ k. live k ≡ false) dead
  pub victim_is : live victim ≡ true
  pub moved : q' ≡ rest ++ replicate (suc (length dead)) 0

-- A list that ends in 0 and has another element before a rest: the rest ends in 0.
record IsSnoc (tail dead rest : List ℕ) (victim : ℕ) : Type 0 where
  shorter : List ℕ
  rest_is : rest ≡ shorter ++ 0 ∷ []
  tail_is : tail ≡ dead ++ victim ∷ shorter

unsnoc :
    (tail dead rest : List ℕ) (victim : ℕ)
    → victim ≢ 0
    → tail ++ 0 ∷ [] ≡ dead ++ victim ∷ rest
    → IsSnoc tail dead rest victim
unsnoc [] [] rest victim nz e = absurd (nz (ground arith))
unsnoc [] (d ∷ []) rest victim nz e = cc
unsnoc [] (d ∷ x ∷ dead) rest victim nz e = cc
unsnoc (t ∷ tail) [] rest victim nz e =
    let same : t ≡ victim = ground arith in
    let rest_is : tail ++ 0 ∷ [] ≡ rest = ground arith in
    record { shorter = tail; rest_is = sym rest_is; tail_is = ap (λ x. x ∷ tail) same }
unsnoc (t ∷ tail) (d ∷ dead) rest victim nz e =
    let same : t ≡ d = ground arith in
    let later : tail ++ 0 ∷ [] ≡ dead ++ victim ∷ rest = ground arith in
    let s = unsnoc tail dead rest victim nz later in
    record {
      shorter = s.shorter;
      rest_is = s.rest_is;
      tail_is = ap (λ x. x ∷ tail) same ∙ ap (◌∷◌ d) s.tail_is;
    }

pub GivesUp-later :
    (live : ℕ → Bool) (x victim : ℕ) (tail q' : List ℕ)
    → live 0 ≡ false
    → live x ≡ false
    → GivesUp live victim (tail ++ 0 ∷ []) q'
    → GivesUp live victim (x ∷ tail) q'
GivesUp-later live x victim tail q' zero_dead x_dead g =
    let nz : victim ≢ 0 = λ z. let is = rw z at g.victim_is in cc (sym zero_dead ∙ is) in
    let s = unsnoc tail g.dead g.rest victim nz g.order in
    record {
      dead = x ∷ g.dead;
      rest = s.shorter;
      order = ap (◌∷◌ x) s.tail_is;
      dead_are = (x_dead, g.dead_are);
      victim_is = g.victim_is;
      moved =
          g.moved
          ∙ ap (λ r. r ++ replicate (suc (length g.dead)) 0) s.rest_is
          ∙ append_assoc s.shorter (0 ∷ []) _;
    }
