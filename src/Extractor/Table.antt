-- ===== src/Extractor/Table.antt =====
-- `std::unordered_map<uint32_t, Conn>` as an association list in some order. `find`, `erase` and
-- `update` act on the first entry of the key.
use packet_inspector.Base.{ℕ, Option, none, some, List, [], ◌∷◌, ◌==◌, if◌then◌else◌}

module _ {ℓ} {V : Type ℓ} where
  unfoldable pub find : ℕ → List (ℕ × V) → Option V
  find k [] = none
  find k ((j, v) ∷ m) = if j == k then some v else find k m

  unfoldable pub erase : ℕ → List (ℕ × V) → List (ℕ × V)
  erase k [] = []
  erase k ((j, v) ∷ m) = if j == k then m else (j, v) ∷ erase k m

  -- A write through the iterator that `find` has returned.
  unfoldable pub update : ℕ → V → List (ℕ × V) → List (ℕ × V)
  update k w [] = []
  update k w ((j, v) ∷ m) = if j == k then (j, w) ∷ m else (j, v) ∷ update k w m

  -- `try_emplace`, for a key that is not there.
  unfoldable pub insert : ℕ → V → List (ℕ × V) → List (ℕ × V)
  insert k v m = (k, v) ∷ m

  unfoldable pub keys : List (ℕ × V) → List ℕ
  keys [] = []
  keys ((k, v) ∷ m) = k ∷ keys m
