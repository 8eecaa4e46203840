-- ===== src/Tls/Records/Rounds.antt =====
-- A round of the record loop of `collectHandshake` on a stream and on a longer one that begins with it.
use packet_inspector.Base.{
  ℕ, ◌+◌, ◌^◌, ◌≤◌, ◌<◌, ◌≡◌, refl, inl, inr, Bool, true, false, not, ◌++◌, arith, ltb, leb, ◌==◌,
  if◌then◌else◌, Bool-cases, ltb-eq-false, le_of_ltb, lt_of_leb, leb-eq-false, Bytes, length, u32,
  sub_u32, length-append, ◌&&◌,
}
use packet_inspector.Memory.{ok, read}
use packet_inspector.Memory.Growth.{
  Keeps, Follows, Follows-bind, Keeps-refl, Keeps-wait, Keeps-bind, Keeps-then, Keeps-if,
  Keeps-guard, read-Follows, rd16-Follows, span-Follows,
}
use packet_inspector.Tls.Records.{
  need_more, rd24, is_bad_record_length, is_other_record, Joined, is_bad_message_length, is_short,
  close_round, stop, again, learn_length, join_step,
}

close-Keeps :
    (b b' w : Bool) (t : Joined)
    → (b ≡ false → b' ≡ false)
    → Keeps
        (stop need_more)
        (ok (if b && w then stop need_more else again t))
        (ok (if b' && w then stop need_more else again t))
close-Keeps true b' true t h = Keeps-wait (stop need_more) _
close-Keeps true true false t h = Keeps-refl (stop need_more) _
close-Keeps true false false t h = Keeps-refl (stop need_more) _
close-Keeps false b' w t h = rw (h refl) (Keeps-refl (stop need_more) _)

module _ (p q : Bytes) (small : length (p ++ q) < 2 ^ 32) where
  pub rd24-Follows : (o : ℕ) → Follows (rd24 p o) (rd24 (p ++ q) o)
  unfolding rd24
  rd24-Follows o = Follows-bind _ _ _ _ (read-Follows p q o) λ a.
      Follows-bind _ _ _ _ (read-Follows p q (o + 1))
        λ b. Follows-bind _ _ _ _ (read-Follows p q (o + 2)) λ c r e. e

  pub is_other_record-Follows : (o : ℕ) → Follows (is_other_record p o) (is_other_record (p ++ q) o)
  unfolding is_other_record
  is_other_record-Follows o = Follows-bind _ _ _ _ (read-Follows p q o) λ kind.
      elim (Bool-cases (not (kind == 0x16))) [
        | inl other ↦ rw other (λ a e. e)
        | inr handshake ↦
            rw handshake (Follows-bind _ _ _ _ (read-Follows p q (o + 1)) λ major a e. e)
      ]

  close_round-Keeps :
      (s : Joined)
      → Keeps
          (stop need_more)
          (ok (close_round (length p) s))
          (ok (close_round (length (p ++ q)) s))
  close_round-Keeps s =
      close-Keeps (leb (length p) s.off) (leb (length (p ++ q)) s.off) (is_short s) s
        λ going. leb-eq-false _ _ (omega (arith, lt_of_leb _ _ going, length-append p q))

  learn_length-Keeps :
      (s : Joined)
      → Keeps (stop need_more) (learn_length (length p) s) (learn_length (length (p ++ q)) s)
  unfolding learn_length
  learn_length-Keeps s =
      Keeps-if (stop need_more) (s.want == 0 && leb 4 (length s.scratch)) _ _ _ _
        (λ _. Keeps-then _ (read s.scratch 0) _ _ λ kind.
          Keeps-if (stop need_more) (not (kind == 0x01)) _ _ _ _ (λ _. Keeps-refl _ _)
            λ _. Keeps-then _ (rd24 s.scratch 1) _ _ λ n.
              Keeps-if (stop need_more) (is_bad_message_length n) _ _ _ _ (λ _. Keeps-refl _ _)
                λ _. close_round-Keeps (record s { want = 4 + n }))
        (λ _. close_round-Keeps s)

  pub join_step-Keeps :
      (s : Joined)
      → s.off ≤ length p
      → Keeps (stop need_more) (join_step p s) (join_step (p ++ q) s)
  unfolding join_step
  join_step-Keeps s inside =
      let l = length-append p q in
      Keeps-guard _ (ltb (sub_u32 (length p) s.off) 5) (ltb (sub_u32 (length (p ++ q)) s.off) 5) _ _
        λ room. (
          ltb-eq-false _ _ (omega (arith, le_of_ltb _ _ room)),
          Keeps-bind _ _ _ _ _ (is_other_record-Follows s.off) λ other _.
              Keeps-if _ other _ _ _ _ (λ _. Keeps-refl _ _)
                λ _. Keeps-bind _ _ _ _ _ (rd16-Follows p q (u32 (s.off + 3))) λ rl _.
                  Keeps-if _ (is_bad_record_length rl) _ _ _ _ (λ _. Keeps-refl _ _)
                    λ good.
                      Keeps-guard _ (ltb (sub_u32 (sub_u32 (length p) s.off) 5) rl)
                        (ltb (sub_u32 (sub_u32 (length (p ++ q)) s.off) 5) rl) _ _
                        λ there. (
                          ltb-eq-false _ _ (omega (arith, le_of_ltb _ _ room, le_of_ltb _ _ there)),
                          Keeps-bind _ _ _ _ _ (span-Follows p q (u32 (s.off + 5)) rl) λ chunk _.
                              learn_length-Keeps (record s {
                                scratch = s.scratch ++ chunk;
                                off = u32 (s.off + (5 + rl));
                              }),
                        ),
        )
