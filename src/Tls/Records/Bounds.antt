-- ===== src/Tls/Records/Bounds.antt =====
-- The reads and the loop of `collectHandshake`.
use packet_inspector.Base.{
  ℕ, zero, suc, ◌+◌, ◌^◌, ◌≤◌, ◌<◌, ◌≡◌, inl, inr, leb→le, ◌++◌, Bool-cases, le_of_ltb, ◌&&◌, false,
  not, [], arith, ltb, leb, ◌==◌, tests, Bytes, length, u32, sub_u32,
}
use packet_inspector.Memory.{
  span, Returns, Returns-ok, Returns-bind, Returns-if, read-Returns, rd16-Returns, span-Returns,
}
use packet_inspector.Tls.Records.{
  HostnameResult, found, not_found, need_more, rd24, is_bad_record_length, is_other_record, Joined,
  is_bad_message_length, is_short, close_round, Round, stop, again, learn_length, join_step,
  join_records, join_all, fast_path, has_other_major, check_major, collect_payload,
  collect_handshake,
}

pub rd24-Returns : (p : Bytes) (o : ℕ) → o + 2 < length p → Returns (rd24 p o) (λ n. n < 16777216)
unfolding rd24
rd24-Returns p o h = Returns-bind _ _ (read-Returns p o (omega arith)) λ a ha.
    Returns-bind _ _ (read-Returns p (o + 1) (omega arith))
      λ b hb. Returns-bind _ _ (read-Returns p (o + 2) h) λ c hc. Returns-ok _ (omega arith)

pub good_record_length : (n : ℕ) → is_bad_record_length n ≡ false → (0 < n) × (n ≤ 16384)
good_record_length n h = ground arith

-- What is found is a whole message: a header of four bytes and at most 65535 bytes more.
abbrev pub IsMessage : HostnameResult → Type 0
IsMessage (found m) = length m ≤ 65539
IsMessage not_found = Unit {0}
IsMessage need_more = Unit {0}

-- A round goes on inside the buffer, by at least a byte.
abbrev pub Advances : Bytes → Joined → Round → Type 0
Advances p s (stop r) = IsMessage r
Advances p s (again t) = (s.off < t.off) × (t.off ≤ length p) × (t.want ≤ 65539)

close_round-Advances :
    (p : Bytes) (s t : Joined)
    → s.off < t.off
    → t.off ≤ length p
    → t.want ≤ 65539
    → Advances p s (close_round (length p) t)
close_round-Advances p s t h k w = ground arith

learn_length-Returns :
    (p : Bytes) (s t : Joined)
    → s.off < t.off
    → t.off ≤ length p
    → t.want ≤ 65539
    → Returns (learn_length (length p) t) (Advances p s)
unfolding learn_length
learn_length-Returns p s t h k w =
    Returns-if (t.want == 0 && leb 4 (length t.scratch))
      (λ header.
        let room : 4 ≤ length t.scratch = ground arith in
        Returns-bind _ _ (read-Returns t.scratch 0 (omega arith)) λ kind _.
          Returns-if (not (kind == 0x01)) (λ _. Returns-ok _ tt)
            λ _. Returns-bind _ _ (rd24-Returns t.scratch 1 (omega arith)) λ n _.
              Returns-if (is_bad_message_length n) (λ _. Returns-ok _ tt)
                λ good.
                  Returns-ok _
                    (close_round-Advances p s (record t { want = 4 + n }) h k (ground arith)))
      λ _. Returns-ok _ (close_round-Advances p s t h k w)

is_other_record-Returns :
    (p : Bytes) (o : ℕ) → o + 1 < length p → Returns (is_other_record p o) (λ _. Unit {0})
unfolding is_other_record
is_other_record-Returns p o h = Returns-bind _ _ (read-Returns p o (omega arith)) λ kind _.
    Returns-if (not (kind == 0x16)) (λ _. Returns-ok _ tt)
      λ _. Returns-bind _ _ (read-Returns p (o + 1) h) λ major _. Returns-ok _ tt

pub join_step-Returns :
    (p : Bytes) (s : Joined)
    → length p < 2 ^ 32
    → s.off ≤ length p
    → s.want ≤ 65539
    → Returns (join_step p s) (Advances p s)
unfolding join_step
join_step-Returns p s small inside known =
    Returns-if (ltb (sub_u32 (length p) s.off) 5) (λ _. Returns-ok _ tt)
      λ room. Returns-bind _ _ (is_other_record-Returns p s.off (omega tests)) λ other _.
        Returns-if other (λ _. Returns-ok _ tt)
          λ _. Returns-bind _ _ (rd16-Returns p _ (omega tests)) λ rl _.
            Returns-if (is_bad_record_length rl) (λ _. Returns-ok _ tt)
              λ good.
                Returns-if (ltb (sub_u32 (sub_u32 (length p) s.off) 5) rl) (λ _. Returns-ok _ tt)
                  λ there.
                    Returns-bind _ _
                      (span-Returns p _ rl (omega (arith, le_of_ltb _ _ room, le_of_ltb _ _ there)))
                      λ chunk _.
                        learn_length-Returns p s
                          (record s { scratch = s.scratch ++ chunk; off = u32 (s.off + (5 + rl)) })
                          (omega (
                            arith,
                            le_of_ltb _ _ room,
                            le_of_ltb _ _ there,
                            good_record_length rl good,
                          ))
                          (omega (arith, le_of_ltb _ _ room, le_of_ltb _ _ there)) known

-- With fuel for the bytes that are left the loop ends, and no read or span is out of bounds.
pub join_records-Returns :
    (fuel : ℕ) (p : Bytes) (s : Joined)
    → length p < 2 ^ 32
    → s.off ≤ length p
    → s.want ≤ 65539
    → length p < fuel + s.off
    → Returns (join_records fuel p s) IsMessage
unfolding join_records
join_records-Returns zero p s small inside known enough = absurd (omega arith)
join_records-Returns (suc fuel) p s small inside known enough = elim (Bool-cases (is_short s)) [
  | inl short ↦
      rw (short, join_records)
        (Returns-bind (join_step p s) _ (join_step-Returns p s small inside known) (elim [
          | stop r ↦ λ h. Returns-ok r h
          | again t ↦ λ h. join_records-Returns fuel p t small h.1 h.2 (omega arith)
        ]))
  | inr long ↦
      rw (long, join_records)
        (Returns-bind (span s.scratch 0 s.want) _ (span-Returns _ 0 s.want (ground arith))
          λ m h. Returns-ok _ (omega arith))
]

join_all-Returns : (p : Bytes) → length p < 2 ^ 32 → Returns (join_all p) IsMessage
unfolding join_all
join_all-Returns p small =
    join_records-Returns (suc (length p)) p (record { scratch = []; off = 0; want = 0 }) small
      (omega arith) (omega arith) (omega arith)

fast_path-Returns :
    (p : Bytes) (rec0 : ℕ) → length p < 2 ^ 32 → 9 ≤ length p → Returns (fast_path p rec0) IsMessage
unfolding fast_path
fast_path-Returns p rec0 small long = Returns-bind _ _ (read-Returns p 5 (omega arith)) λ kind _.
    Returns-if (not (kind == 0x01)) (λ _. Returns-ok _ tt)
      λ _. Returns-bind _ _ (rd24-Returns p 6 (omega arith)) λ n _.
        Returns-if (is_bad_message_length n) (λ _. Returns-ok _ tt)
          λ good.
            Returns-if (leb (4 + n) rec0)
              (λ _.
                Returns-if (ltb (length p) (5 + (4 + n))) (λ _. Returns-ok _ tt)
                  λ there.
                    Returns-bind _ _ (span-Returns p 5 (4 + n) (le_of_ltb _ _ there))
                      λ m h. Returns-ok _ (ground arith))
              (λ _. join_all-Returns p small)

collect_payload-Returns :
    (p : Bytes) → length p < 2 ^ 32 → 5 ≤ length p → Returns (collect_payload p) IsMessage
unfolding collect_payload
collect_payload-Returns p small long = Returns-bind _ _ (rd16-Returns p 3 (omega arith)) λ rec0 _.
    Returns-if (is_bad_record_length rec0) (λ _. Returns-ok _ tt)
      λ _.
        Returns-if (leb 4 rec0 && leb 9 (length p))
          (λ fast. fast_path-Returns p rec0 small (ground arith)) (λ _. join_all-Returns p small)

has_other_major-Returns : (p : Bytes) → Returns (has_other_major p) (λ _. Unit {0})
unfolding has_other_major
has_other_major-Returns p =
    Returns-if (leb 2 (length p))
      (λ two. Returns-bind _ _ (read-Returns p 1 (leb→le _ _ two)) λ major _. Returns-ok _ tt)
      (λ _. Returns-ok _ tt)

check_major-Returns : (p : Bytes) → length p < 2 ^ 32 → Returns (check_major p) IsMessage
unfolding check_major
check_major-Returns p small = Returns-bind _ _ (has_other_major-Returns p) λ other _.
    Returns-if other (λ _. Returns-ok _ tt)
      λ _.
        Returns-if (ltb (length p) 5) (λ _. Returns-ok _ tt)
          λ long. collect_payload-Returns p small (le_of_ltb _ _ long)

-- No stream, whatever its bytes, makes `collectHandshake` read outside of it or loop for ever.
pub collect_handshake-Returns :
    (p : Bytes) → length p < 2 ^ 32 → Returns (collect_handshake p) IsMessage
unfolding collect_handshake
collect_handshake-Returns p small =
    Returns-if (ltb (length p) 1) (λ _. Returns-ok _ tt)
      λ some_bytes. Returns-bind _ _ (read-Returns p 0 (le_of_ltb _ _ some_bytes)) λ kind _.
        Returns-if (not (kind == 0x16)) (λ _. Returns-ok _ tt) λ _. check_major-Returns p small
