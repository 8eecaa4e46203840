-- ===== src/BlockList/Suffixes.antt =====
-- `isHostnameBlocked` of src/blocklist.cpp against what an entry asks to block.
use packet_inspector.Base.{
  ℕ, ◌≡◌, ◌≢◌, refl, ◌↔◌, inl, inr, true, List, [], ◌∷◌, arith, ◌==◌, Bool-cases, Bytes,
}
use packet_inspector.BlockList.{
  BlockList, dot, same, contains, has_blocked_parent, is_hostname_blocked,
}

-- A string stands in a list of strings.
pub data Listed : Bytes → List Bytes → Type 0 where
  here : (s : Bytes) (ts : List Bytes) → Listed s (s ∷ ts)
  there : (s t : Bytes) (ts : List Bytes) → Listed s ts → Listed s (t ∷ ts)

-- The hostname is a proper subdomain of the suffix: a label, a dot, and the suffix.
pub data Below (suffix : Bytes) : Bytes → Type 0 where
  after_dot : Below suffix (dot ∷ suffix)
  further : (c : ℕ) (s : Bytes) → Below suffix s → Below suffix (c ∷ s)

-- A hostname that the entries ask to block.
pub data Blocked (b : BlockList) (hostname : Bytes) : Type 0 where
  by_name : Listed hostname b.exact → Blocked b hostname
  by_suffix :
      (c : ℕ) (suffix : Bytes)
      → Listed (c ∷ suffix) b.wildcard
      → Below (c ∷ suffix) hostname
      → Blocked b hostname

same_sound : (s t : Bytes) → same s t ≡ true → s ≡ t
unfolding same
same_sound [] [] e = refl
same_sound [] (y ∷ ys) e = cc
same_sound (x ∷ xs) [] e = cc
same_sound (x ∷ xs) (y ∷ ys) e = elim (Bool-cases (x == y)) [
  | inl hit ↦ let tails = same_sound xs ys (rw hit at e) in let heads : x ≡ y = ground arith in cc
  | inr miss ↦ cc (rw miss at e)
]

same_refl : (s : Bytes) → same s s ≡ true
unfolding same
same_refl [] = refl
same_refl (x ∷ xs) = ground (arith, same_refl xs)

contains_sound : (s : Bytes) (ts : List Bytes) → contains s ts ≡ true → Listed s ts
unfolding contains
contains_sound s [] e = cc
contains_sound s (t ∷ ts) e = elim (Bool-cases (same s t)) [
  | inl hit ↦ rw⁻¹ (same_sound s t hit) (here s ts)
  | inr miss ↦ there s t ts (contains_sound s ts (rw miss at e))
]

contains_complete : (s : Bytes) (ts : List Bytes) → Listed s ts → contains s ts ≡ true
unfolding contains
contains_complete s ts (here _ us) = rw (same_refl s) refl
contains_complete s ts (there _ t us l) = ground (arith, contains_complete s us l)

further_down :
    (wildcard : List Bytes) {s : Bytes} (x : ℕ)
    → ((c : ℕ) × (suffix : Bytes) × Listed (c ∷ suffix) wildcard × Below (c ∷ suffix) s)
    → (c : ℕ) × (suffix : Bytes) × Listed (c ∷ suffix) wildcard × Below (c ∷ suffix) (x ∷ s)
further_down wildcard x (c, suffix, l, below) = (c, suffix, l, further x _ below)

has_blocked_parent_sound :
    (wildcard : List Bytes) (s : Bytes)
    → has_blocked_parent wildcard s ≡ true
    → (c : ℕ) × (suffix : Bytes) × Listed (c ∷ suffix) wildcard × Below (c ∷ suffix) s
unfolding has_blocked_parent
has_blocked_parent_sound wildcard [] e = cc
has_blocked_parent_sound wildcard (c ∷ []) e = elim (Bool-cases (c == dot)) [
  | inl hit ↦ cc (rw hit at e)
  | inr miss ↦ cc (rw miss at e)
]
has_blocked_parent_sound wildcard (c ∷ d ∷ s) e = elim (Bool-cases (c == dot)) [
  | inl hit ↦ elim (Bool-cases (contains (d ∷ s) wildcard)) [
    | inl listed ↦
        let is_dot : c ≡ dot = ground arith in
        (d, s, contains_sound (d ∷ s) wildcard listed, rw is_dot after_dot)
    | inr other ↦
        further_down wildcard c (has_blocked_parent_sound wildcard (d ∷ s) (rw (hit, other) at e))
  ]
  | inr miss ↦ further_down wildcard c (has_blocked_parent_sound wildcard (d ∷ s) (rw miss at e))
]

Below-nonempty : {suffix s : Bytes} → Below suffix s → s ≢ []
Below-nonempty after_dot e = cc
Below-nonempty (further c s below) e = cc

has_blocked_parent_complete :
    (wildcard : List Bytes) (c : ℕ) (suffix s : Bytes)
    → Listed (c ∷ suffix) wildcard
    → Below (c ∷ suffix) s
    → has_blocked_parent wildcard s ≡ true
unfolding has_blocked_parent
has_blocked_parent_complete wildcard c suffix s l after_dot =
    rw (contains_complete (c ∷ suffix) wildcard l) refl
has_blocked_parent_complete wildcard c suffix s l (further d [] below) =
    absurd (Below-nonempty below refl)
has_blocked_parent_complete wildcard c suffix s l (further d (e ∷ t) below) =
    ground (arith, has_blocked_parent_complete wildcard c suffix (e ∷ t) l below)

-- A hostname is blocked exactly when it is an entry, or a proper subdomain of a wildcard's non-empty
-- suffix.
pub is_hostname_blocked-Blocked :
    (b : BlockList) (hostname : Bytes)
    → (is_hostname_blocked b hostname ≡ true) ↔ Blocked b hostname
unfolding is_hostname_blocked
is_hostname_blocked-Blocked b hostname = (sound, complete)
  where
    sound : is_hostname_blocked b hostname ≡ true → Blocked b hostname
    sound e = elim (Bool-cases (contains hostname b.exact)) [
      | inl listed ↦ by_name (contains_sound hostname b.exact listed)
      | inr other ↦
          let (c, suffix, l, below) =
            has_blocked_parent_sound b.wildcard hostname (rw other at e) in
          by_suffix c suffix l below
    ]

    complete : Blocked b hostname → is_hostname_blocked b hostname ≡ true
    complete (by_name l) = rw (contains_complete hostname b.exact l) refl
    complete (by_suffix c suffix l below) =
        ground (arith, has_blocked_parent_complete b.wildcard c suffix hostname l below)
