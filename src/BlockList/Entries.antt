-- ===== src/BlockList/Entries.antt =====
-- What a line of the block list's file asks for, and what src/blocklist.cpp makes of it.
use packet_inspector.Base.{
  ℕ, ◌≡◌, ◌≢◌, refl, sym, subst, ◌↔◌, ◌⊎◌, inl, inr, Bool, true, false, ◌&&◌, [], ◌∷◌, arith, ltb,
  ◌==◌, Bool-cases, Bytes, length, get_or,
}
use packet_inspector.BlockList.{BlockList, dot, is_space, parse_line, add_entry}
use packet_inspector.BlockList.Suffixes.{Listed, here, there, Below, Blocked, by_name, by_suffix}

-- A line, and what stays of it when its white space is left out.
pub data Strips : Bytes → Bytes → Type 0 where
  done : Strips [] []
  blank : (c : ℕ) {line s : Bytes} → is_space c ≡ true → Strips line s → Strips (c ∷ line) s
  letter : (c : ℕ) {line s : Bytes} → is_space c ≡ false → Strips line s → Strips (c ∷ line) (c ∷ s)

-- An asterisk, a dot, and a suffix that is not empty.
abbrev pub IsWildcard : Bytes → Type 0
IsWildcard s = (d : ℕ) × (suffix : Bytes) × (s ≡ 42 ∷ 46 ∷ d ∷ suffix)

-- What an entry asks to block: a wildcard the proper subdomains of its suffix; any other entry that is
-- not empty and does not begin with a number sign, itself.
pub data Asks : Bytes → Bytes → Type 0 where
  itself : (c : ℕ) (cs : Bytes) → c ≢ 35 → (¬ IsWildcard (c ∷ cs)) → Asks (c ∷ cs) (c ∷ cs)
  subdomains :
      (d : ℕ) (suffix : Bytes) {hostname : Bytes}
      → Below (d ∷ suffix) hostname
      → Asks (42 ∷ 46 ∷ d ∷ suffix) hostname

pub parse_line-Strips : (line : Bytes) → Strips line (parse_line line)
unfolding parse_line
parse_line-Strips [] = done
parse_line-Strips (c ∷ line) = elim (Bool-cases (is_space c)) [
  | inl space ↦ rw space (blank c space (parse_line-Strips line))
  | inr other ↦ rw other (letter c other (parse_line-Strips line))
]

pub Strips-unique : {line s : Bytes} → Strips line s → parse_line line ≡ s
unfolding parse_line
Strips-unique done = refl
Strips-unique (blank c space rest) = rw (space, Strips-unique rest) refl
Strips-unique (letter c other rest) = rw (other, Strips-unique rest) refl

abbrev is_wildcard : ℕ → Bytes → Bool
is_wildcard c cs = ltb 2 (length (c ∷ cs)) && c == 42 && get_or cs 0 0 == dot

IsWildcard-cases :
    (c : ℕ) (cs : Bytes)
    → ((is_wildcard c cs ≡ true) × IsWildcard (c ∷ cs))
      ⊎ ((is_wildcard c cs ≡ false) × (¬ IsWildcard (c ∷ cs)))
IsWildcard-cases c [] = inr (refl, λ w. cc (w.2))
IsWildcard-cases c (x ∷ []) = inr (refl, λ w. cc (w.2))
IsWildcard-cases c (x ∷ d ∷ suffix) = elim (Bool-cases (c == 42)) [
  | inr miss ↦ inr (ground arith, λ w. let e = w.2 in ground arith)
  | inl hit ↦ elim (Bool-cases (x == 46)) [
    | inr miss ↦ inr (ground arith, λ w. let e = w.2 in ground arith)
    | inl dotted ↦
        let star : c ≡ 42 = ground arith in
        let point : x ≡ 46 = ground arith in inl (ground arith, (d, suffix, rw (star, point) refl))
  ]
]

-- The set of names, and of suffixes, with one more.
abbrev with_name : Bytes → BlockList → BlockList
with_name s b = record b { exact = s ∷ b.exact }

abbrev with_suffix : Bytes → BlockList → BlockList
with_suffix s b = record b { wildcard = s ∷ b.wildcard }

with_name-Blocked :
    (s hostname : Bytes) (b : BlockList)
    → Blocked (with_name s b) hostname ↔ (Blocked b hostname ⊎ (s ≡ hostname))
with_name-Blocked s hostname b = (split hostname, join)
  where
    listed : (h : Bytes) → Listed h (s ∷ b.exact) → Blocked b h ⊎ (s ≡ h)
    listed h (here _ _) = inr refl
    listed h (there _ _ _ l) = inl (by_name l)

    split : (h : Bytes) → Blocked (with_name s b) h → Blocked b h ⊎ (s ≡ h)
    split h (by_name l) = listed h l
    split h (by_suffix c suffix l below) = inl (by_suffix c suffix l below)

    join : Blocked b hostname ⊎ (s ≡ hostname) → Blocked (with_name s b) hostname
    join (inl (by_name l)) = by_name (there hostname s b.exact l)
    join (inl (by_suffix c suffix l below)) = by_suffix c suffix l below
    join (inr e) = by_name (rw e (here hostname b.exact))

with_suffix-Blocked :
    (d : ℕ) (suffix hostname : Bytes) (b : BlockList)
    → Blocked (with_suffix (d ∷ suffix) b) hostname
      ↔ (Blocked b hostname ⊎ Below (d ∷ suffix) hostname)
with_suffix-Blocked d suffix hostname b = (split, join)
  where
    split :
        Blocked (with_suffix (d ∷ suffix) b) hostname
        → Blocked b hostname ⊎ Below (d ∷ suffix) hostname
    split (by_name l) = inl (by_name l)
    split (by_suffix _ _ (here _ _) below) = inr below
    split (by_suffix c s (there _ _ _ l) below) = inl (by_suffix c s l below)

    join :
        Blocked b hostname ⊎ Below (d ∷ suffix) hostname
        → Blocked (with_suffix (d ∷ suffix) b) hostname
    join (inl (by_name l)) = by_name l
    join (inl (by_suffix c s l below)) =
        by_suffix c s (there (c ∷ s) (d ∷ suffix) b.wildcard l) below
    join (inr below) = by_suffix d suffix (here (d ∷ suffix) b.wildcard) below

-- What a name, a wildcard and a comment ask for.
Asks-name :
    (c : ℕ) (cs hostname : Bytes)
    → c ≢ 35
    → (¬ IsWildcard (c ∷ cs))
    → Asks (c ∷ cs) hostname ↔ (c ∷ cs ≡ hostname)
Asks-name c cs hostname plain other =
    (λ asks. split c cs hostname other asks, λ e. rw⁻¹ e (itself c cs plain other))
  where
    split : (x : ℕ) (xs h : Bytes) → (¬ IsWildcard (x ∷ xs)) → Asks (x ∷ xs) h → x ∷ xs ≡ h
    split x xs h no_wildcard (itself _ _ _ _) = refl
    split x xs h no_wildcard (subdomains d suffix below) = absurd (no_wildcard (d, suffix, refl))

Asks-wildcard :
    (d : ℕ) (suffix hostname : Bytes)
    → Asks (42 ∷ 46 ∷ d ∷ suffix) hostname ↔ Below (d ∷ suffix) hostname
Asks-wildcard d suffix hostname = (split d suffix hostname, subdomains d suffix)
  where
    split : (x : ℕ) (xs h : Bytes) → Asks (42 ∷ 46 ∷ x ∷ xs) h → Below (x ∷ xs) h
    split x xs h (itself _ _ _ other) = absurd (other (x, xs, refl))
    split x xs h (subdomains _ _ below) = below

Asks-comment : (cs hostname : Bytes) → ¬ Asks (35 ∷ cs) hostname
Asks-comment cs hostname (itself _ _ plain _) = plain refl

Asks-nothing : (hostname : Bytes) → ¬ Asks [] hostname
Asks-nothing hostname asks = elim asks [ ]

-- The second way, restated.
second_way {ℓ κ ι μ} :
    {X : Type ℓ} {B : Type κ} {Y : Type ι} {A : Type μ} → X ↔ (B ⊎ Y) → A ↔ Y → X ↔ (B ⊎ A)
second_way x a = (
  λ h. elim (x.0 h) [ inl b ↦ inl b | inr y ↦ inr (a.1 y) ],
  λ h. elim h [ inl b ↦ x.1 (inl b) | inr y ↦ x.1 (inr (a.0 y)) ],
)

pub no_way {ℓ κ} : {B : Type ℓ} {A : Type κ} → (¬ A) → B ↔ (B ⊎ A)
no_way none_is = (λ b. inl b, λ h. elim h [ inl b ↦ b | inr a ↦ absurd (none_is a) ])

-- With one more entry: what was blocked before, and what the entry asks for.
abbrev pub Adds : Bytes → Bytes → BlockList → Type 0
Adds s hostname b = Blocked (add_entry s b) hostname ↔ (Blocked b hostname ⊎ Asks s hostname)

wildcard-Adds :
    (d : ℕ) (suffix hostname : Bytes) (b : BlockList) → Adds (42 ∷ 46 ∷ d ∷ suffix) hostname b
unfolding add_entry
wildcard-Adds d suffix hostname b =
    let long : ltb 2 (length (42 ∷ 46 ∷ d ∷ suffix)) ≡ true = ground arith in
    rw long (second_way (with_suffix-Blocked d suffix hostname b) (Asks-wildcard d suffix hostname))

pub add_entry-Adds : (s hostname : Bytes) (b : BlockList) → Adds s hostname b
unfolding add_entry
add_entry-Adds [] hostname b = no_way (Asks-nothing hostname)
add_entry-Adds (c ∷ cs) hostname b = elim (Bool-cases (c == 35)) [
  | inl comment ↦
      let same : c ≡ 35 = ground arith in
      rw (comment, add_entry) (no_way (λ asks. Asks-comment cs hostname (rw same at asks)))
  | inr plain ↦ elim (IsWildcard-cases c cs) [
    | inl (test, (d, suffix, e)) ↦
        subst (λ s. Adds s hostname b) (sym e) (wildcard-Adds d suffix hostname b)
    | inr (test, other) ↦
        rw (plain, test, add_entry)
          (second_way (with_name-Blocked (c ∷ cs) hostname b)
            (Asks-name c cs hostname (λ z. ground arith) other))
  ]
]
