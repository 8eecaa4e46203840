-- ===== src/Memory.antt =====
-- Reads through a pointer with a length, as packet.cpp and hostname_extractor.cpp make them. A pointer
-- and the length that goes with it are the span of bytes that they designate; a read or a span
-- outside of it is the fault `out_of_bounds`, and a loop that uses up its fuel is `out_of_fuel`.
pub mod Cursor
pub mod Growth
use packet_inspector.Base.{
  ℕ, ◌+◌, ◌*◌, ◌%◌, ◌^◌, ◌≤◌, ◌<◌, ◌≡◌, refl, ◌∙◌, ap, none, some, ◌++◌, arith, Bool, true, false,
  leb, le→leb, if◌then◌else◌, Bytes, length, get_elem?, take, drop, get_elem?-of_lt,
  get_elem?-append_left, length-append, length-take, length-drop, take-append_left,
  drop-append_left,
}

pub data Outcome {ℓ} (A : Type ℓ) : Type ℓ where
  ok : A → Outcome A
  out_of_bounds out_of_fuel : Outcome A

infixl 5 ◌>>=◌
abbrev pub ◌>>=◌ {ℓ κ} : {A : Type ℓ} {B : Type κ} → Outcome A → (A → Outcome B) → Outcome B
ok a >>= f = f a
out_of_bounds >>= f = out_of_bounds
out_of_fuel >>= f = out_of_fuel

-- The outcome is a value, and the value has the property.
abbrev pub Returns {ℓ κ} : {A : Type ℓ} → Outcome A → (A → Type κ) → Type (ℓ ⊔ κ)
Returns {A} m P = (a : A) × (m ≡ ok a) × P a

pub Returns-ok {ℓ κ} : {A : Type ℓ} {P : A → Type κ} (a : A) → P a → Returns (ok a) P
Returns-ok a h = (a, refl, h)

pub Returns-bind {ℓ κ ι} :
    {A : Type ℓ} {B : Type ℓ} {P : A → Type κ} {Q : B → Type ι} (m : Outcome A) (f : A → Outcome B)
    → Returns m P
    → ((a : A) → P a → Returns (f a) Q)
    → Returns (m >>= f) Q
Returns-bind m f (a, e, h) k = let (b, e', h') = k a h in (b, ap (λ x. x >>= f) e ∙ e', h')

pub Returns-if {ℓ κ} :
    {A : Type ℓ} {P : A → Type κ} (b : Bool) {m n : Outcome A}
    → (b ≡ true → Returns m P)
    → (b ≡ false → Returns n P)
    → Returns (if b then m else n) P
Returns-if true h k = h refl
Returns-if false h k = k refl

pub Returns-weaken {ℓ κ ι} :
    {A : Type ℓ} {P : A → Type κ} {Q : A → Type ι} {m : Outcome A}
    → Returns m P
    → ((a : A) → P a → Q a)
    → Returns m Q
Returns-weaken (a, e, h) k = (a, e, k a h)

-- `p[i]`, a `uint8_t`.
unfoldable pub read : Bytes → ℕ → Outcome ℕ
read p i = elim (get_elem? p i) [ some b ↦ ok (b % 256) | none ↦ out_of_bounds ]

-- The `n` bytes at `p + o`.
unfoldable pub span : Bytes → ℕ → ℕ → Outcome Bytes
span p o n = if leb (o + n) (length p) then ok (take n (drop o p)) else out_of_bounds

-- `rd16` and `be16`: the big-endian 16-bit number at `p + o`.
unfoldable pub rd16 : Bytes → ℕ → Outcome ℕ
rd16 p o = do hi ← read p o; lo ← read p (o + 1); ok ((hi * 256 + lo) % 2 ^ 16)

pub read-Returns : (p : Bytes) (i : ℕ) → i < length p → Returns (read p i) (λ b. b < 256)
unfolding read
read-Returns p i h = let (b, e) = get_elem?-of_lt p i h in (b % 256, rw (e, read), omega arith)

pub rd16-Returns : (p : Bytes) (o : ℕ) → o + 1 < length p → Returns (rd16 p o) (λ n. n < 65536)
unfolding rd16
rd16-Returns p o h =
    Returns-bind _ _ (read-Returns p o (omega arith))
      λ hi _. Returns-bind _ _ (read-Returns p (o + 1) h) λ lo _. Returns-ok _ (omega arith)

pub span-Returns :
    (p : Bytes) (o n : ℕ) → o + n ≤ length p → Returns (span p o n) (λ s. length s ≡ n)
unfolding span
span-Returns p o n h =
    (take n (drop o p), rw (le→leb _ _ h), omega (arith, length-take n (drop o p), length-drop o p))

pub read-append : (p q : Bytes) (i : ℕ) → i < length p → read (p ++ q) i ≡ read p i
unfolding read
read-append p q i h = rw (get_elem?-append_left p q i h, read)

pub rd16-append : (p q : Bytes) (o : ℕ) → o + 1 < length p → rd16 (p ++ q) o ≡ rd16 p o
unfolding rd16
rd16-append p q o h = rw (read-append p q o (omega arith), read-append p q (o + 1) h)

pub span-append : (p q : Bytes) (o n : ℕ) → o + n ≤ length p → span (p ++ q) o n ≡ span p o n
unfolding span
span-append p q o n h = rw (
  le→leb (o + n) (length (p ++ q)) (omega (arith, length-append p q)),
  le→leb _ _ h,
  drop-append_left o p q (omega arith),
  take-append_left n (drop o p) q (omega (arith, length-drop o p)),
)
