-- ===== src/Tls/Records/Joining.antt =====
-- The loop of `collectHandshake` on the records of Tls.Wire.
use packet_inspector.Base.{
  ℕ, zero, suc, ◌+◌, ◌^◌, ◌≤◌, ◌<◌, ◌≡◌, ◌⊎◌, refl, sym, ap, ◌∙◌, inl, inr, false, List, [], ◌∷◌,
  ◌++◌, append_assoc, arith, leb, ◌==◌, ◌&&◌, if◌then◌else◌, Bool-cases, ltb-eq-false, le→leb,
  leb-eq-false, Bytes, length, take, drop, All, u32, sub_u32, length-append, take-append_left,
  take-append-length,
}
use packet_inspector.Memory.{ok, read, span, read-append}
use packet_inspector.Memory.Cursor.{read-drop, span-drop, drop_past, length_at_cons}
use packet_inspector.Tls.Records.Fields.{rd16-be16, rd24-be24}
use packet_inspector.Tls.Records.{
  found, rd24, Joined, is_short, close_round, again, learn_length, join_step, join_records,
  join_all,
}
use packet_inspector.Tls.Wire.{be16, be24, Fragment, IsFragment, record_layer, payloads}
use packet_inspector.Tls.Records.Headers.{
  is_other_record-at, rd24-append, unlearned, enough, complete, good_length,
}

module _ (p body extra rest : Bytes) (small : length p < 2 ^ 32) (low : 34 ≤ length body)
    (high : length body ≤ 65535) where
  abbrev n : ℕ
  n = length body

  abbrev message : Bytes
  message = 0x01 ∷ (be24 n ++ body)

  abbrev learned : Joined → Joined
  learned t = if t.want == 0 && leb 4 (length t.scratch) then record t { want = 4 + n } else t

  learn_length-at :
      (len : ℕ) (t : Joined) (tail : Bytes)
      → t.scratch ++ tail ≡ message ++ extra
      → learn_length len t ≡ ok (close_round len (learned t))
  unfolding learn_length
  learn_length-at len t tail e = elim (Bool-cases (t.want == 0 && leb 4 (length t.scratch))) [
    | inl header ↦
        let four : 4 ≤ length t.scratch = ground arith in
        let kind : read t.scratch 0 ≡ ok 1 =
          sym (read-append t.scratch tail 0 (omega arith))
          ∙ rw e (read-drop (message ++ extra) 0 {b = 1} refl) in
        let size : rd24 t.scratch 1 ≡ ok n =
          sym (rd24-append t.scratch tail 1 (omega arith))
          ∙ rw e (rd24-be24 (message ++ extra) 1 n (omega arith) refl) in
        rw (header, kind, size, ltb-eq-false n 34 low, ltb-eq-false 65535 n high)
    | inr other ↦ rw other
  ]

  record Inv (s : Joined) (fs : List Fragment) : Type 0 where
    at : drop s.off p ≡ record_layer fs ++ rest
    inside : s.off ≤ length p
    joined : s.scratch ++ payloads fs ≡ message ++ extra
    known : ((s.want ≡ 0) × (length s.scratch < 4)) ⊎ (s.want ≡ 4 + n)

  abbrev onward : Joined → Fragment → Joined
  onward s f = record s {
    scratch = s.scratch ++ f.payload;
    off = u32 (s.off + (5 + length f.payload));
  }

  onward-Inv :
      (s : Joined) (f : Fragment) (fs : List Fragment)
      → Inv s (f ∷ fs)
      → Inv (learned (onward s f)) fs
  onward-Inv s f fs i =
      let here = length_at_cons s.off p i.at in
      let lengths = length-append (f.payload ++ record_layer fs) rest in
      let lengths' = length-append f.payload (record_layer fs) in
      let off : u32 (s.off + (5 + length f.payload)) ≡ s.off + 5 + length f.payload = omega arith in
      let at' : drop (u32 (s.off + (5 + length f.payload))) p ≡ record_layer fs ++ rest = rw off (
        drop_past (s.off + 5) p f.payload (record_layer fs ++ rest) (
          drop_past s.off p (0x16 ∷ 0x03 ∷ f.minor ∷ be16 (length f.payload)) _ (
            i.at
            ∙ ap (λ r. 0x16 ∷ 0x03 ∷ f.minor ∷ (be16 (length f.payload) ++ r))
                (append_assoc f.payload (record_layer fs) rest)))) in
      let inside' : u32 (s.off + (5 + length f.payload)) ≤ length p = omega arith in
      let joined' : (s.scratch ++ f.payload) ++ payloads fs ≡ message ++ extra =
        append_assoc s.scratch f.payload (payloads fs) ∙ i.joined in
      elim (Bool-cases (s.want == 0 && leb 4 (length (s.scratch ++ f.payload)))) [
        | inl header ↦
            rw header (record { at = at'; inside = inside'; joined = joined'; known = inr refl })
        | inr other ↦ rw other (record {
          at = at';
          inside = inside';
          joined = joined';
          known =
              unlearned n s.want (length (s.scratch ++ f.payload)) other
                (elim i.known [ inl k ↦ inl k.0 | inr k ↦ inr k ]);
        })
      ]

  join_step-at :
      (s : Joined) (f : Fragment) (fs : List Fragment)
      → IsFragment f
      → Inv s (f ∷ fs)
      → join_step p s ≡ ok (close_round (length p) (learned (onward s f)))
  unfolding join_step
  join_step-at s f fs size i =
      let here = length_at_cons s.off p i.at in
      let lengths = length-append (f.payload ++ record_layer fs) rest in
      let lengths' = length-append f.payload (record_layer fs) in
      let at' =
        i.at
        ∙ ap (λ r. 0x16 ∷ 0x03 ∷ f.minor ∷ (be16 (length f.payload) ++ r))
            (append_assoc f.payload (record_layer fs) rest) in
      let off3 : u32 (s.off + 3) ≡ s.off + 3 = omega arith in
      let off5 : u32 (s.off + 5) ≡ s.off + 5 = omega arith in
      rw
        (
          ltb-eq-false (sub_u32 (length p) s.off) 5 (omega arith),
          is_other_record-at p s.off i.at,
          off3,
          rd16-be16 p (s.off + 3) (length f.payload) (omega arith)
              (drop_past s.off p (0x16 ∷ 0x03 ∷ f.minor ∷ []) _ at'),
          good_length (length f.payload) size,
          ltb-eq-false (sub_u32 (sub_u32 (length p) s.off) 5) (length f.payload) (omega arith),
          off5,
          span-drop p (s.off + 5) f.payload (record_layer fs ++ rest)
              (drop_past s.off p (0x16 ∷ 0x03 ∷ f.minor ∷ be16 (length f.payload)) _ at')
              (omega arith),
        )
        (learn_length-at (length p) (onward s f) (payloads fs)
          (append_assoc s.scratch f.payload (payloads fs) ∙ i.joined))

  learned-off : (t : Joined) → (learned t).off ≡ t.off
  learned-off t = elim (Bool-cases (t.want == 0 && leb 4 (length t.scratch))) [
    | inl header ↦ rw header
    | inr other ↦ rw other
  ]

  is_short-nil : (s : Joined) → Inv s [] → is_short s ≡ false
  is_short-nil s i =
      enough s.want (length s.scratch) n
        (omega (arith, ap length i.joined, length-append s.scratch [], length-append body extra))
        i.known

  close_round-again :
      (s : Joined) (fs : List Fragment) → Inv s fs → close_round (length p) s ≡ again s
  close_round-again s [] i = elim (Bool-cases (leb (length p) s.off)) [
    | inl ended ↦ rw (ended, is_short-nil s i)
    | inr going ↦ rw going
  ]
  close_round-again s (f ∷ fs) i =
      rw (leb-eq-false (length p) s.off (omega (arith, length_at_cons s.off p i.at)))

  message_found :
      (s : Joined) (fs : List Fragment)
      → Inv s fs
      → is_short s ≡ false
      → span s.scratch 0 s.want ≡ ok message
  unfolding span
  message_found s fs i whole =
      let (is, fits) = complete s.want (length s.scratch) n i.known whole in
      let l : length message ≡ 4 + n = omega arith in
      rw (is, le→leb (0 + (4 + n)) (length s.scratch) (omega arith))
        (ap ok (
          sym (take-append_left (4 + n) s.scratch (payloads fs) fits)
          ∙ ap (take (4 + n)) i.joined
          ∙ take-append-length (4 + n) message extra (sym l)))

  join_records-at :
      (fs : List Fragment) (fuel : ℕ) (s : Joined)
      → All IsFragment fs
      → Inv s fs
      → length p < fuel + s.off
      → join_records fuel p s ≡ ok (found message)
  unfolding join_records
  join_records-at fs zero s sizes i enough = absurd (omega (arith, i.inside))
  join_records-at [] (suc fuel) s sizes i enough =
      rw (is_short-nil s i, join_records, message_found s [] i (is_short-nil s i))
  join_records-at (f ∷ fs) (suc fuel) s sizes i enough = elim (Bool-cases (is_short s)) [
    | inl short ↦
        let i' = onward-Inv s f fs i in
        rw
          (
            short,
            join_records,
            join_step-at s f fs sizes.0 i,
            close_round-again (learned (onward s f)) fs i',
          )
          (join_records-at fs fuel (learned (onward s f)) sizes.1 i' (
            omega (
              arith,
              learned-off (onward s f),
              length_at_cons s.off p i.at,
              length-append (f.payload ++ record_layer fs) rest,
              length-append f.payload (record_layer fs),
            )))
    | inr whole ↦ rw (whole, join_records, message_found s (f ∷ fs) i whole)
  ]

  pub join_all-at :
      (fs : List Fragment)
      → All IsFragment fs
      → p ≡ record_layer fs ++ rest
      → payloads fs ≡ message ++ extra
      → join_all p ≡ ok (found message)
  unfolding join_all
  join_all-at fs sizes e joined =
      join_records-at fs (suc (length p)) (record { scratch = []; off = 0; want = 0 }) sizes
        (record { at = e; inside = omega arith; joined = joined; known = inl (refl, omega arith) })
        (omega arith)
