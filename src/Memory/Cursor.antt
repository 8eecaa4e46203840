-- ===== src/Memory/Cursor.antt =====
-- Reading forward: what stands at offset `o` of a buffer is `drop o p`.
use packet_inspector.Base.{
  ℕ, zero, suc, ◌+◌, ◌*◌, ◌%◌, ◌^◌, ◌≤◌, ◌≡◌, refl, ap, sym, ◌∙◌, some, List, [], ◌∷◌, ◌++◌, arith,
  le→leb, Bytes, length, get_elem?, drop, length-append, length-drop, drop-append-length,
  take-append-length,
}
use packet_inspector.Memory.{ok, read, rd16, span}

module _ {ℓ} {A : Type ℓ} where
  pub drop-drop : (m n : ℕ) (p : List A) → drop n (drop m p) ≡ drop (m + n) p
  drop-drop zero n p = ap (λ k. drop k p) (omega arith)
  drop-drop (suc m) zero [] = let e : suc m + 0 ≡ suc m = omega arith in rw e
  drop-drop (suc m) (suc n) [] = let e : suc m + suc n ≡ suc (suc (m + n)) = omega arith in rw e
  drop-drop (suc m) n (x ∷ p) =
      let e : suc m + n ≡ suc (m + n) = omega arith in rw e (drop-drop m n p)

  pub get_elem?-drop :
      (o : ℕ) (p : List A) {b : A} {rest : List A} → drop o p ≡ b ∷ rest → get_elem? p o ≡ some b
  get_elem?-drop zero [] e = cc
  get_elem?-drop zero (x ∷ p) e = cc
  get_elem?-drop (suc o) [] e = cc
  get_elem?-drop (suc o) (x ∷ p) e = get_elem?-drop o p e

  -- What stands behind a piece.
  pub drop_past :
      (o : ℕ) (p xs rest : List A) → drop o p ≡ xs ++ rest → drop (o + length xs) p ≡ rest
  drop_past o p xs rest e =
      sym (drop-drop o (length xs) p)
      ∙ ap (drop (length xs)) e
      ∙ drop-append-length (length xs) xs rest refl

  pub drop_past_one :
      (o : ℕ) (p : List A) {b : A} {rest : List A} → drop o p ≡ b ∷ rest → drop (o + 1) p ≡ rest
  drop_past_one o p {b} {rest} e = drop_past o p (b ∷ []) rest e

  pub length_at :
      (o : ℕ) (p rest : List A) → drop o p ≡ rest → o ≤ length p → length p ≡ o + length rest
  length_at o p rest e h = omega (arith, ap length e, length-drop o p)

  -- Something stands at `o`, so `o` lies inside.
  pub length_at_cons :
      (o : ℕ) (p : List A) {b : A} {rest : List A}
      → drop o p ≡ b ∷ rest
      → length p ≡ o + 1 + length rest
  length_at_cons o p e = omega (arith, ap length e, length-drop o p)

pub read-drop :
    (p : Bytes) (o : ℕ) {b : ℕ} {rest : Bytes} → drop o p ≡ b ∷ rest → read p o ≡ ok (b % 256)
unfolding read
read-drop p o e = rw (get_elem?-drop o p e, read)

pub rd16-drop :
    (p : Bytes) (o : ℕ) {a b : ℕ} {rest : Bytes}
    → drop o p ≡ a ∷ b ∷ rest
    → rd16 p o ≡ ok (((a % 256) * 256 + b % 256) % 2 ^ 16)
unfolding rd16
rd16-drop p o e = rw (read-drop p o e, read-drop p (o + 1) (drop_past_one o p e))

pub span-drop :
    (p : Bytes) (o : ℕ) (xs rest : Bytes)
    → drop o p ≡ xs ++ rest
    → o ≤ length p
    → span p o (length xs) ≡ ok xs
unfolding span
span-drop p o xs rest e h = rw (
  le→leb (o + length xs) (length p)
      (omega (arith, length_at o p (xs ++ rest) e h, length-append xs rest)),
  e,
  take-append-length (length xs) xs rest refl,
)
