-- ===== src/Cli/Values.antt =====
-- An option of src/cli.cpp and its value, a number that is written and read back or not a number.
use packet_inspector.Base.{
  ℕ, ◌≤◌, ◌<◌, ◌≡◌, refl, true, false, none, some, List, ◌∷◌, arith, ltb-eq-false, ◌==◌, Bytes,
  length,
}
use packet_inspector.Cli.{Config, Number, Setting, sets, flag_of, parse_uint, assign, parse_args}

-- `strtoull` reads a written number back, all of it.
pub record IsReadBack (strtoull : Bytes → Number) (written : ℕ → Bytes) : Type 0 where
  pub reads :
      (n : ℕ)
      → n < 4294967296
      → strtoull (written n) ≡ record { value = n; failed = false; used = length (written n) }
  pub some_digit : (n : ℕ) → 0 < length (written n)

module _ (strtoull : Bytes → Number) (written : ℕ → Bytes)
    (back : IsReadBack strtoull written) where
  pub parse_uint-written :
      (n lo hi : ℕ)
      → lo ≤ n
      → n ≤ hi
      → hi < 4294967296
      → parse_uint strtoull (written n) lo hi ≡ some n
  unfolding parse_uint
  parse_uint-written n lo hi low high small =
      let whole : (length (written n) == length (written n)) ≡ true = ground arith in
      let filled : (length (written n) == 0) ≡ false = ground (arith, back.some_digit n) in
      let above = ltb-eq-false n lo low in
      let below = ltb-eq-false hi n high in
      rw (back.reads n (omega (arith, high, small)), filled, whole, above, below) refl

  value-step :
      (s : Setting) (v : Bytes) (rest : List Bytes) (c d : Config)
      → assign strtoull s v c ≡ some d
      → parse_args strtoull (some s) (v ∷ rest) c ≡ parse_args strtoull none rest d
  unfolding parse_args
  value-step s v rest c d assigned = rw (parse_args, assigned) refl

  pub option-step :
      (flag : Bytes) (s : Setting) (v : Bytes) (rest : List Bytes) (c d : Config)
      → flag_of flag ≡ sets s
      → assign strtoull s v c ≡ some d
      → parse_args strtoull none (flag ∷ v ∷ rest) c ≡ parse_args strtoull none rest d
  unfolding parse_args
  option-step flag s v rest c d is assigned = rw (parse_args, is) (value-step s v rest c d assigned)

  pub number-step :
      (flag : Bytes) (s : Setting) (n lo hi : ℕ) (rest : List Bytes) (c d : Config)
      → flag_of flag ≡ sets s
      → lo ≤ n
      → n ≤ hi
      → hi < 4294967296
      → (parse_uint strtoull (written n) lo hi ≡ some n → assign strtoull s (written n) c ≡ some d)
      → parse_args strtoull none (flag ∷ written n ∷ rest) c ≡ parse_args strtoull none rest d
  number-step flag s n lo hi rest c d is low high small assigned =
      option-step flag s (written n) rest c d is
        (assigned (parse_uint-written n lo hi low high small))
