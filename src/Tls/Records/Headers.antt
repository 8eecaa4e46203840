-- ===== src/Tls/Records/Headers.antt =====
-- Record headers, and what `want` can be in the loop of `collectHandshake`.
use packet_inspector.Base.{
  ℕ, ◌+◌, ◌≤◌, ◌<◌, ◌≡◌, ◌⊎◌, false, [], ◌∷◌, ◌++◌, arith, ltb, leb, ◌==◌, ◌&&◌, ◌||◌, Bytes,
  length, drop,
}
use packet_inspector.Memory.{ok, read-append}
use packet_inspector.Memory.Cursor.{read-drop, drop_past_one}
use packet_inspector.Tls.Records.{rd24, is_bad_record_length, is_other_record}

-- The header of the record that stands at `o`.
pub is_other_record-at :
    (p : Bytes) (o : ℕ) {rest : Bytes}
    → drop o p ≡ 0x16 ∷ 0x03 ∷ rest
    → is_other_record p o ≡ ok false
unfolding is_other_record
is_other_record-at p o e = rw (read-drop p o e, read-drop p (o + 1) (drop_past_one o p e))

pub rd24-append : (p q : Bytes) (o : ℕ) → o + 2 < length p → rd24 (p ++ q) o ≡ rd24 p o
unfolding rd24
rd24-append p q o h = rw (
  read-append p q o (omega arith),
  read-append p q (o + 1) (omega arith),
  read-append p q (o + 2) h,
)

pub unlearned :
    (n want l : ℕ)
    → (want == 0 && leb 4 l) ≡ false
    → (want ≡ 0) ⊎ (want ≡ 4 + n)
    → ((want ≡ 0) × (l < 4)) ⊎ (want ≡ 4 + n)
unlearned n want l h k = ground arith

pub enough :
    (want l n : ℕ)
    → 4 + n ≤ l
    → ((want ≡ 0) × (l < 4)) ⊎ (want ≡ 4 + n)
    → (want == 0 || ltb l want) ≡ false
enough want l n h k = ground arith

pub complete :
    (want l n : ℕ)
    → ((want ≡ 0) × (l < 4)) ⊎ (want ≡ 4 + n)
    → (want == 0 || ltb l want) ≡ false
    → (want ≡ 4 + n) × (4 + n ≤ l)
complete want l n k h = ground arith

pub good_length : (n : ℕ) → (0 < n) × (n ≤ 16384) → is_bad_record_length n ≡ false
good_length n h = ground arith

-- A list of four or more is known by its first four, which a longer list shares.
pub first_four :
    (q x y : Bytes) (a b c d : ℕ)
    → 4 ≤ length q
    → q ++ x ≡ a ∷ b ∷ c ∷ d ∷ y
    → q ≡ a ∷ b ∷ c ∷ d ∷ drop 4 q
first_four [] x y a b c d h e = absurd (omega arith)
first_four (k ∷ []) x y a b c d h e = absurd (omega arith)
first_four (k ∷ l ∷ []) x y a b c d h e = absurd (omega arith)
first_four (k ∷ l ∷ m ∷ []) x y a b c d h e = absurd (omega arith)
first_four (k ∷ l ∷ m ∷ o ∷ q) x y a b c d h e = cc
