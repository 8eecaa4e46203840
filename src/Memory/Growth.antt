-- ===== src/Memory/Growth.antt =====
-- The same computation over a buffer and over a longer one that begins with it.
use packet_inspector.Base.{
  ℕ, zero, suc, ◌+◌, ◌≡◌, ◌≢◌, refl, ◌∙◌, inl, inr, Bool, true, false, some, Option-cases, ◌∷◌, [],
  ◌++◌, leb, Bool-cases, leb→le, if◌then◌else◌, Bytes, length, get_elem?,
}
use packet_inspector.Memory.{
  Outcome, ok, out_of_bounds, out_of_fuel, ◌>>=◌, read, rd16, span, span-append,
}

-- `n` returns what `m` returns, unless that is `wait`.
abbrev pub Keeps {ℓ} : {A : Type ℓ} → A → Outcome A → Outcome A → Type ℓ
Keeps {A} wait m n = (r : A) → m ≡ ok r → r ≢ wait → n ≡ ok r

-- `n` returns what `m` returns.
abbrev pub Follows {ℓ} : {A : Type ℓ} → Outcome A → Outcome A → Type ℓ
Follows {A} m n = (a : A) → m ≡ ok a → n ≡ ok a

pub Follows-bind {ℓ} :
    {A B : Type ℓ} (m m' : Outcome A) (f g : A → Outcome B)
    → Follows m m'
    → ((a : A) → Follows (f a) (g a))
    → Follows (m >>= f) (m' >>= g)
Follows-bind (ok a) m' f g h k b e = rw (h a refl) (k a b e)
Follows-bind out_of_bounds m' f g h k b e = cc
Follows-bind out_of_fuel m' f g h k b e = cc

module _ {B : Type 0} (wait : B) where
  pub Keeps-refl : (m : Outcome B) → Keeps wait m m
  Keeps-refl m r e _ = e

  pub Keeps-wait : (n : Outcome B) → Keeps wait (ok wait) n
  Keeps-wait n r e h = absurd (h cc)

  pub Keeps-bind :
      {A : Type 0} (m m' : Outcome A) (f g : A → Outcome B)
      → Follows m m'
      → ((a : A) → m ≡ ok a → Keeps wait (f a) (g a))
      → Keeps wait (m >>= f) (m' >>= g)
  Keeps-bind (ok a) m' f g h k r e ne = rw (h a refl) (k a refl r e ne)
  Keeps-bind out_of_bounds m' f g h k r e ne = cc
  Keeps-bind out_of_fuel m' f g h k r e ne = cc

  -- The same step, then what keeps.
  pub Keeps-then :
      {A : Type 0} (m : Outcome A) (f g : A → Outcome B)
      → ((a : A) → Keeps wait (f a) (g a))
      → Keeps wait (m >>= f) (m >>= g)
  Keeps-then m f g k = Keeps-bind m m f g (λ a e. e) λ a _. k a

  pub Keeps-if :
      (b : Bool) (m m' n n' : Outcome B)
      → (b ≡ true → Keeps wait m m')
      → (b ≡ false → Keeps wait n n')
      → Keeps wait (if b then m else n) (if b then m' else n')
  Keeps-if true m m' n n' h k = h refl
  Keeps-if false m m' n n' h k = k refl

  -- A guard that waits, and passes for good once it has passed.
  pub Keeps-guard :
      (b b' : Bool) (m m' : Outcome B)
      → (b ≡ false → (b' ≡ false) × Keeps wait m m')
      → Keeps wait (if b then ok wait else m) (if b' then ok wait else m')
  Keeps-guard true b' m m' h = Keeps-wait _
  Keeps-guard false b' m m' h = rw (h refl).0 (h refl).1

module _ (p q : Bytes) where
  get_elem?-Follows :
      (xs : Bytes) (i : ℕ) (b : ℕ) → get_elem? xs i ≡ some b → get_elem? (xs ++ q) i ≡ some b
  get_elem?-Follows [] i b e = cc
  get_elem?-Follows (x ∷ xs) zero b e = e
  get_elem?-Follows (x ∷ xs) (suc i) b e = get_elem?-Follows xs i b e

  pub read-Follows : (i : ℕ) → Follows (read p i) (read (p ++ q) i)
  unfolding read
  read-Follows i a e = elim (Option-cases (get_elem? p i)) [
    | inl missing ↦ cc (rw (missing, read) at e)
    | inr (b, there) ↦ rw (get_elem?-Follows p i b there, read) (rw (there, read) at e)
  ]

  pub rd16-Follows : (o : ℕ) → Follows (rd16 p o) (rd16 (p ++ q) o)
  unfolding rd16
  rd16-Follows o =
      Follows-bind _ _ _ _ (read-Follows o)
        λ hi. Follows-bind _ _ _ _ (read-Follows (o + 1)) λ lo a e. e

  pub span-Follows : (o n : ℕ) → Follows (span p o n) (span (p ++ q) o n)
  span-Follows o n a e = elim (Bool-cases (leb (o + n) (length p))) [
    | inl inside ↦ span-append p q o n (leb→le _ _ inside) ∙ e
    | inr outside ↦ let missing : span p o n ≡ out_of_bounds = unfold span in rw outside in cc
  ]
