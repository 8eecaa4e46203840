-- ===== src/Tls/Records/Collected.antt =====
-- `collectHandshake` on the records of Tls.Wire.
use packet_inspector.Base.{
  ℕ, ◌+◌, ◌^◌, ◌≤◌, ◌<◌, ◌≡◌, sym, ap, ◌∙◌, inl, inr, List, [], ◌∷◌, ◌++◌, append_assoc, arith, leb,
  Bool-cases, ltb-eq-false, le→leb, leb→le, Bytes, length, take, drop, All, length-append,
  length-drop, take-append_left, take-append-length,
}
use packet_inspector.Memory.{ok, span}
use packet_inspector.Memory.Cursor.{read-drop, drop_past, drop_past_one, length_at_cons}
use packet_inspector.Tls.Records.Fields.{rd16-be16, rd24-be24}
use packet_inspector.Tls.Records.{
  found, fast_path, has_other_major, check_major, collect_payload, collect_handshake,
}
use packet_inspector.Tls.Wire.{be16, be24, Fragment, IsFragment, record_layer, payloads}
use packet_inspector.Tls.Records.Headers.{good_length, first_four}
use packet_inspector.Tls.Records.Joining.{join_all-at}

module _ (p body extra rest : Bytes) (small : length p < 2 ^ 32) (low : 34 ≤ length body)
    (high : length body ≤ 65535) where
  abbrev n : ℕ
  n = length body

  abbrev message : Bytes
  message = 0x01 ∷ (be24 n ++ body)

  span-take :
      (o k : ℕ) (xs : Bytes) → drop o p ≡ xs → o + k ≤ length p → span p o k ≡ ok (take k xs)
  unfolding span
  span-take o k xs e h = rw (le→leb (o + k) (length p) h, e)

  -- The first record has the whole message.
  fast_path-at :
      (f : Fragment) (fs : List Fragment)
      → All IsFragment (f ∷ fs)
      → p ≡ record_layer (f ∷ fs) ++ rest
      → payloads (f ∷ fs) ≡ message ++ extra
      → 4 ≤ length f.payload
      → fast_path p (length f.payload) ≡ ok (found message)
  unfolding fast_path
  fast_path-at f fs sizes e joined four =
      let tail = record_layer fs ++ rest in
      let at5 : drop 5 p ≡ f.payload ++ tail =
        drop_past 0 p (0x16 ∷ 0x03 ∷ f.minor ∷ be16 (length f.payload)) _ e
        ∙ append_assoc f.payload (record_layer fs) rest in
      let head = first_four f.payload (payloads fs) _ _ _ _ _ four joined in
      let at5' : drop 5 p ≡ 1 ∷ (be24 n ++ (drop 4 f.payload ++ tail)) =
        at5 ∙ ap (λ b. b ++ tail) head in
      rw
        (
          read-drop p 5 at5',
          rd24-be24 p 6 n (omega arith) (drop_past_one 5 p at5'),
          ltb-eq-false n 34 low,
          ltb-eq-false 65535 n high,
        )
        (elim (Bool-cases (leb (4 + n) (length f.payload))) [
          | inl whole ↦
              let fits = leb→le _ _ whole in
              let total = length_at_cons 5 p at5' in
              let l = length-append f.payload tail in
              rw (
                whole,
                ltb-eq-false (length p) (5 + (4 + n))
                    (omega (arith, ap length at5, length-drop 5 p)),
                span-take 5 (4 + n) (f.payload ++ tail) at5
                    (omega (arith, ap length at5, length-drop 5 p)),
                take-append_left (4 + n) f.payload tail fits,
                sym (take-append_left (4 + n) f.payload (payloads fs) fits),
                joined,
                take-append-length (4 + n) message extra (omega arith),
              )
          | inr part ↦
              rw part (join_all-at p body extra rest small low high (f ∷ fs) sizes e joined)
        ])

  pub collect_handshake-at :
      (fs : List Fragment)
      → All IsFragment fs
      → p ≡ record_layer fs ++ rest
      → payloads fs ≡ message ++ extra
      → collect_handshake p ≡ ok (found message)
  unfolding collect_handshake check_major has_other_major collect_payload
  collect_handshake-at [] sizes e joined = absurd (omega (arith, ap length joined))
  collect_handshake-at (f ∷ fs) sizes e joined =
      let total = length_at_cons 0 p e in
      let lengths = length-append (f.payload ++ record_layer fs) rest in
      let lengths' = length-append f.payload (record_layer fs) in
      rw
        (
          ltb-eq-false (length p) 1 (omega arith),
          read-drop p 0 e,
          le→leb 2 (length p) (omega arith),
          read-drop p 1 (drop_past_one 0 p e),
          ltb-eq-false (length p) 5 (omega arith),
          rd16-be16 p 3 (length f.payload) (omega arith)
              (drop_past 0 p (0x16 ∷ 0x03 ∷ f.minor ∷ []) _ e),
          good_length (length f.payload) sizes.0,
        )
        (elim (Bool-cases (leb 4 (length f.payload))) [
          | inl four ↦
              rw (four, le→leb 9 (length p) (omega (arith, leb→le _ _ four)))
                (fast_path-at f fs sizes e joined (leb→le _ _ four))
          | inr tiny ↦
              rw tiny (join_all-at p body extra rest small low high (f ∷ fs) sizes e joined)
        ])
