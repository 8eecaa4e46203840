-- ===== src/Tls/Records/Stable.antt =====
-- `collectHandshake` on a stream and on a longer one that begins with it.
use packet_inspector.Base.{
  ℕ, zero, suc, ◌+◌, ◌^◌, ◌≤◌, ◌<◌, ◌≡◌, refl, ap, ◌∙◌, inl, inr, false, not, [], ◌++◌, arith, ltb,
  leb, ◌==◌, Bool-cases, ltb-eq-false, le→leb, le_of_ltb, leb→le, lt_of_leb, lt→ltb, Bytes, length,
  sub_u32, length-append,
}
use packet_inspector.Memory.{Outcome, ok, ◌>>=◌, read, rd16}
use packet_inspector.Memory.Growth.{
  Keeps, Follows, Follows-bind, Keeps-refl, Keeps-wait, Keeps-bind, Keeps-if, Keeps-guard,
  read-Follows, rd16-Follows, span-Follows,
}
use packet_inspector.Tls.Records.{
  HostnameResult, found, not_found, need_more, is_bad_record_length, is_other_record, Joined,
  is_bad_message_length, is_short, Round, stop, again, join_step, join_records, join_all, fast_path,
  has_other_major, check_major, collect_payload, collect_handshake,
}
use packet_inspector.Tls.Records.Bounds.{good_record_length, join_step-Returns, Advances}
use packet_inspector.Tls.Records.Rounds.{rd24-Follows, join_step-Keeps}

module _ (p q : Bytes) (small : length (p ++ q) < 2 ^ 32) where
  after_round :
      (k k' : Joined → Outcome HostnameResult) (s : Joined) (a : Round)
      → s.off ≤ length p
      → join_step p s ≡ ok a
      → ((t : Joined) → a ≡ again t → Keeps need_more (k t) (k' t))
      → Keeps need_more
          (join_step p s >>= elim [ stop r ↦ ok r | again t ↦ k t ])
          (join_step (p ++ q) s >>= elim [ stop r ↦ ok r | again t ↦ k' t ])
  after_round k k' s (stop need_more) inside e h r done ne =
      absurd (ne (let same = rw e at done in cc))
  after_round k k' s (stop not_found) inside e h r done ne =
      rw (join_step-Keeps p q small s inside _ e (λ x. cc)) (rw e at done)
  after_round k k' s (stop (found m)) inside e h r done ne =
      rw (join_step-Keeps p q small s inside _ e (λ x. cc)) (rw e at done)
  after_round k k' s (again t) inside e h r done ne =
      rw (join_step-Keeps p q small s inside _ e (λ x. cc)) (h t refl r (rw e at done) ne)

  join_records-Keeps :
      (fuel more : ℕ) (s : Joined)
      → fuel ≤ more
      → s.off ≤ length p
      → s.want ≤ 65539
      → Keeps need_more (join_records fuel p s) (join_records more (p ++ q) s)
  unfolding join_records
  join_records-Keeps zero more s h inside known = λ r e ne. cc
  join_records-Keeps (suc fuel) zero s h inside known = absurd (omega arith)
  join_records-Keeps (suc fuel) (suc more) s h inside known = elim (Bool-cases (is_short s)) [
    | inl short ↦
        let (a, e, adv) = join_step-Returns p s (omega (arith, length-append p q)) inside known in
        rw (short, join_records)
          (after_round (join_records fuel p) (join_records more (p ++ q)) s a inside e λ t again_t.
            let on : Advances p s (again t) = rw again_t at adv in
            join_records-Keeps fuel more t (omega arith) on.1 on.2)
    | inr long ↦ rw (long, join_records) (Keeps-refl need_more _)
  ]

  join_all-Keeps : Keeps need_more (join_all p) (join_all (p ++ q))
  unfolding join_all
  join_all-Keeps =
      join_records-Keeps (suc (length p)) (suc (length (p ++ q)))
        (record { scratch = []; off = 0; want = 0 }) (omega (arith, length-append p q))
        (omega arith) (omega arith)

  fast_path-Keeps : (rec0 : ℕ) → Keeps need_more (fast_path p rec0) (fast_path (p ++ q) rec0)
  unfolding fast_path
  fast_path-Keeps rec0 = Keeps-bind _ _ _ _ _ (read-Follows p q 5) λ kind _.
      Keeps-if _ (not (kind == 0x01)) _ _ _ _ (λ _. Keeps-refl _ _)
        λ _. Keeps-bind _ _ _ _ _ (rd24-Follows p q small 6) λ n _.
          Keeps-if _ (is_bad_message_length n) _ _ _ _ (λ _. Keeps-refl _ _)
            λ _.
              Keeps-if _ (leb (4 + n) rec0) _ _ _ _
                (λ _.
                  Keeps-guard _ (ltb (length p) (5 + (4 + n))) (ltb (length (p ++ q)) (5 + (4 + n)))
                    _ _
                    λ there. (
                      ltb-eq-false _ _ (omega (arith, le_of_ltb _ _ there, length-append p q)),
                      Keeps-bind _ _ _ _ _ (span-Follows p q 5 (4 + n)) λ message _. Keeps-refl _ _,
                    ))
                (λ _. join_all-Keeps)

  -- With both headers in order and the first record not all there, the loop asks for more.
  join_all_waits :
      (rec0 : ℕ)
      → 5 ≤ length p
      → length p < 5 + rec0
      → is_bad_record_length rec0 ≡ false
      → is_other_record p 0 ≡ ok false
      → rd16 p 3 ≡ ok rec0
      → join_all p ≡ ok need_more
  unfolding join_all join_records join_step
  join_all_waits rec0 five part good header length_field =
      let tiny : length p < 2 ^ 32 = omega (arith, length-append p q) in
      rw (
        ltb-eq-false (sub_u32 (length p) 0) 5 (omega arith),
        header,
        length_field,
        good,
        lt→ltb (sub_u32 (sub_u32 (length p) 0) 5) rec0
            (omega (arith, good_record_length rec0 good)),
      )

  collect_payload-Keeps :
      5 ≤ length p
      → is_other_record p 0 ≡ ok false
      → Keeps need_more (collect_payload p) (collect_payload (p ++ q))
  unfolding collect_payload
  collect_payload-Keeps five header = Keeps-bind _ _ _ _ _ (rd16-Follows p q 3) λ rec0 length_field.
      Keeps-if _ (is_bad_record_length rec0) _ _ _ _ (λ _. Keeps-refl _ _)
        λ good. elim (Bool-cases (leb 4 rec0)) [
          | inl four ↦ elim (Bool-cases (leb 9 (length p))) [
            | inl nine ↦
                rw
                  (
                    four,
                    nine,
                    le→leb 9 (length (p ++ q)) (omega (arith, leb→le _ _ nine, length-append p q)),
                  )
                  (fast_path-Keeps rec0)
            | inr part ↦
                rw
                  (
                    four,
                    part,
                    join_all_waits rec0 five (omega (arith, lt_of_leb _ _ part, leb→le _ _ four))
                        good header length_field,
                  )
                  (Keeps-wait need_more _)
          ]
          | inr tiny ↦ rw tiny join_all-Keeps
        ]

  header_in_order :
      (kind : ℕ)
      → 2 ≤ length p
      → read p 0 ≡ ok kind
      → not (kind == 0x16) ≡ false
      → has_other_major p ≡ ok false
      → is_other_record p 0 ≡ ok false
  unfolding is_other_record has_other_major
  header_in_order kind two first handshake major =
      rw (first, handshake) (rw (le→leb 2 (length p) two) at major)

  has_other_major-Follows : 2 ≤ length p → Follows (has_other_major p) (has_other_major (p ++ q))
  unfolding has_other_major
  has_other_major-Follows two =
      rw (le→leb 2 (length p) two, le→leb 2 (length (p ++ q)) (omega (arith, length-append p q)))
        (Follows-bind _ _ _ _ (read-Follows p q 1) λ major a e. e)

  after_kind-Keeps :
      (kind : ℕ)
      → read p 0 ≡ ok kind
      → not (kind == 0x16) ≡ false
      → Keeps need_more (check_major p) (check_major (p ++ q))
  unfolding check_major
  after_kind-Keeps kind first handshake = elim (Bool-cases (leb 2 (length p))) [
    | inl two ↦ Keeps-bind _ _ _ _ _ (has_other_major-Follows (leb→le _ _ two)) λ other major.
        Keeps-if _ other _ _ _ _ (λ _. Keeps-refl _ _)
          λ same. Keeps-guard _ (ltb (length p) 5) (ltb (length (p ++ q)) 5) _ _ λ five. (
            ltb-eq-false _ _ (omega (arith, le_of_ltb _ _ five, length-append p q)),
            collect_payload-Keeps (le_of_ltb _ _ five)
                (header_in_order kind (leb→le _ _ two) first handshake (major ∙ ap ok same)),
          )
    | inr one ↦
        let waits : check_major p ≡ ok need_more =
          unfold has_other_major in
          rw (one, lt→ltb (length p) 5 (omega (arith, lt_of_leb _ _ one))) in
        rw waits (Keeps-wait need_more _)
  ]

  -- A stream that has given a result gives the same result when more bytes follow, so parsing after
  -- each chunk meets what parsing the whole stream would.
  pub collect_handshake-Keeps : Keeps need_more (collect_handshake p) (collect_handshake (p ++ q))
  unfolding collect_handshake
  collect_handshake-Keeps = Keeps-guard _ (ltb (length p) 1) (ltb (length (p ++ q)) 1) _ _ λ one. (
    ltb-eq-false _ _ (omega (arith, le_of_ltb _ _ one, length-append p q)),
    Keeps-bind _ _ _ _ _ (read-Follows p q 0) λ kind first.
        Keeps-if _ (not (kind == 0x16)) _ _ _ _ (λ _. Keeps-refl _ _)
          λ handshake. after_kind-Keeps kind first handshake,
  )
