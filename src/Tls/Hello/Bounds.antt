-- ===== src/Tls/Hello/Bounds.antt =====
-- The reads and loops of `parseClientHello`.
use packet_inspector.Base.{
  ℕ, zero, suc, ◌+◌, ◌^◌, ◌≤◌, ◌<◌, not, arith, ltb, leb, ◌==◌, if◌then◌else◌, leb→le, le_of_ltb,
  Bytes, length, u32,
}
use packet_inspector.Memory.{
  Outcome, Returns, Returns-ok, Returns-bind, Returns-if, read-Returns, rd16-Returns, span-Returns,
}
use packet_inspector.Tls.Hello.{
  Walk, done, onto, walk, name_step, walk_names, walk_extensions, server_name, extension_step, has,
  parse_extensions, parse_compression, parse_cipher_suites, parse_body, parse_client_hello,
}

abbrev Onward : ℕ → ℕ → Walk → Type 0
Onward limit o (done r) = Unit {0}
Onward limit o (onto o') = (o < o') × (o' ≤ limit)

-- A loop whose rounds go on below a limit ends.
walk-Returns :
    (limit : ℕ) (body : ℕ → Outcome Walk)
    → ((o : ℕ) → o ≤ limit → Returns (body o) (Onward limit o))
    → (fuel o : ℕ) → o ≤ limit
    → limit < fuel + o
    → Returns (walk fuel body o) (λ _. Unit {0})
unfolding walk
walk-Returns limit body keep zero o inside enough = absurd (omega arith)
walk-Returns limit body keep (suc fuel) o inside enough =
    Returns-bind (body o) _ (keep o inside) (elim [
      | done r ↦ λ _. Returns-ok r tt
      | onto o' ↦ λ h. walk-Returns limit body keep fuel o' h.1 (omega arith)
    ])

module _ (p : Bytes) (small : length p < 2 ^ 31) where
  name_step-Returns :
      (list_end q : ℕ)
      → list_end ≤ length p
      → q ≤ list_end
      → Returns (name_step p list_end q) (Onward list_end q)
  unfolding name_step
  name_step-Returns list_end q h k =
      Returns-if (leb (u32 (q + 3)) list_end)
        (λ room.
          let three : q + 3 ≤ list_end = omega (arith, leb→le _ _ room) in
          Returns-bind _ _ (read-Returns p q (omega arith)) λ name_type _.
            Returns-bind _ _ (rd16-Returns p (u32 (q + 1)) (omega arith)) λ name_len hn.
              Returns-if (ltb list_end (u32 (u32 (q + 3) + name_len))) (λ _. Returns-ok _ tt)
                λ whole.
                  let fits : q + 3 + name_len ≤ list_end = omega (arith, le_of_ltb _ _ whole) in
                  Returns-if (name_type == 0x00)
                    (λ _.
                      Returns-bind _ _ (span-Returns p (u32 (q + 3)) name_len (omega arith))
                        λ host _. Returns-ok _ tt)
                    (λ _. Returns-ok _ (omega arith, omega arith)))
        (λ _. Returns-ok _ tt)

  server_name-Returns :
      (o elen : ℕ) → o + elen ≤ length p → Returns (server_name p o elen) (λ _. Unit {0})
  unfolding server_name
  server_name-Returns o elen h =
      Returns-if (ltb (u32 (o + elen)) (u32 (o + 2))) (λ _. Returns-ok _ tt)
        λ room.
          let two : o + 2 ≤ o + elen = omega (arith, le_of_ltb _ _ room) in
          Returns-bind _ _ (rd16-Returns p o (omega arith)) λ n hn.
            let e : ℕ =
              if ltb (u32 (o + 2 + n)) (u32 (o + elen)) then u32 (o + 2 + n) else u32 (o + elen) in
            let low : u32 (o + 2) ≤ e = ground arith in
            let high : e ≤ length p = ground arith in
            unfold walk_names in
            walk-Returns e (name_step p e) (λ q. name_step-Returns e q high) (suc (length p))
              (u32 (o + 2)) low (omega arith)

  extension_step-Returns :
      (ext_end o : ℕ)
      → ext_end ≤ length p
      → o ≤ ext_end
      → Returns (extension_step p ext_end o) (Onward ext_end o)
  unfolding extension_step
  extension_step-Returns ext_end o h k =
      Returns-if (leb (u32 (o + 4)) ext_end)
        (λ room.
          let four : o + 4 ≤ ext_end = omega (arith, leb→le _ _ room) in
          Returns-bind _ _ (rd16-Returns p o (omega arith)) λ etype _.
            Returns-bind _ _ (rd16-Returns p (u32 (o + 2)) (omega arith)) λ elen hn.
              Returns-if (ltb ext_end (u32 (u32 (o + 4) + elen))) (λ _. Returns-ok _ tt)
                λ whole.
                  let fits : o + 4 + elen ≤ ext_end = omega (arith, le_of_ltb _ _ whole) in
                  Returns-if (etype == 0x0000)
                    (λ _.
                      Returns-bind _ _ (server_name-Returns (u32 (o + 4)) elen (omega arith))
                        λ r _. Returns-ok _ tt)
                    (λ _. Returns-ok _ (omega arith, omega arith)))
        (λ _. Returns-ok _ tt)

  parse_extensions-Returns : (o : ℕ) → o < 2 ^ 31 → Returns (parse_extensions p o) (λ _. Unit {0})
  unfolding parse_extensions
  parse_extensions-Returns o h =
      Returns-if (not (has p o 2)) (λ _. Returns-ok _ tt)
        λ room.
          let two : o + 2 ≤ length p = ground arith in
          Returns-bind _ _ (rd16-Returns p o (omega arith)) λ n hn.
            let e : ℕ = if ltb (length p) (u32 (o + 2 + n)) then length p else u32 (o + 2 + n) in
            let low : u32 (o + 2) ≤ e = ground arith in
            let high : e ≤ length p = ground arith in
            unfold walk_extensions in
            walk-Returns e (extension_step p e) (λ q. extension_step-Returns e q high)
              (suc (length p)) (u32 (o + 2)) low (omega arith)

  parse_compression-Returns : (o : ℕ) → o < 2 ^ 30 → Returns (parse_compression p o) (λ _. Unit {0})
  unfolding parse_compression
  parse_compression-Returns o h =
      Returns-if (not (has p o 1)) (λ _. Returns-ok _ tt)
        λ room.
          let one : o + 1 ≤ length p = ground arith in
          Returns-bind _ _ (read-Returns p o (omega arith))
            λ n hn. parse_extensions-Returns (u32 (o + (1 + n))) (omega arith)

  parse_cipher_suites-Returns :
      (o : ℕ) → o < 2 ^ 29 → Returns (parse_cipher_suites p o) (λ _. Unit {0})
  unfolding parse_cipher_suites
  parse_cipher_suites-Returns o h =
      Returns-if (not (has p o 2)) (λ _. Returns-ok _ tt)
        λ room.
          let two : o + 2 ≤ length p = ground arith in
          Returns-bind _ _ (rd16-Returns p o (omega arith))
            λ n hn. parse_compression-Returns (u32 (o + (2 + n))) (omega arith)

  parse_body-Returns : Returns (parse_body p) (λ _. Unit {0})
  unfolding parse_body
  parse_body-Returns =
      Returns-if (not (has p 4 35)) (λ _. Returns-ok _ tt)
        λ room.
          let fixed : 39 ≤ length p = ground arith in
          Returns-bind _ _ (read-Returns p 38 (omega arith))
            λ n hn. parse_cipher_suites-Returns (u32 (38 + (1 + n))) (omega arith)

  -- No message makes `parseClientHello` read outside of it or loop for ever.
  pub parse_client_hello-Returns : Returns (parse_client_hello p) (λ _. Unit {0})
  unfolding parse_client_hello
  parse_client_hello-Returns =
      Returns-if (ltb (length p) 4) (λ _. Returns-ok _ tt)
        λ four.
          Returns-bind _ _ (read-Returns p 0 (omega (arith, le_of_ltb _ _ four)))
            λ kind _. Returns-if (not (kind == 0x01)) (λ _. Returns-ok _ tt) λ _. parse_body-Returns
