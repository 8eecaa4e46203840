-- ===== src/Tls/Hello/Correct.antt =====
-- `parseClientHello` of src/hostname_extractor.cpp on the messages of Tls.Wire.
use packet_inspector.Base.{
  ℕ, zero, suc, ◌+◌, ◌%◌, ◌^◌, ◌≤◌, ◌<◌, ◌≡◌, refl, inl, inr, List, [], ◌∷◌, ◌++◌, arith, ◌==◌,
  Bool-cases, ltb-eq-false, le→leb, leb-eq-false, Bytes, length, drop, u32, All, length-append,
}
use packet_inspector.Memory.{ok}
use packet_inspector.Memory.Cursor.{length_at, read-drop, drop_past, drop_past_one, length_at_cons}
use packet_inspector.Tls.Records.Fields.{rd16-be16}
use packet_inspector.Tls.Hello.{
  Walk, done, onto, walk, extension_step, walk_extensions, parse_extensions, parse_compression,
  parse_cipher_suites, parse_body, parse_client_hello,
}
use packet_inspector.Tls.Hello.Names.{answer, server_name-at}
use packet_inspector.Tls.Wire.{
  be16, be24, Extension, server_names, other, name_bytes, extension_data, extension_type,
  extension_bytes, IsExtension, sni_of, first_host, ClientHello, IsHello, hello_tail, hello_body,
  hello_message,
}

-- What the parser does at an extension.
abbrev at_extension : Extension → ℕ → Walk
at_extension (server_names ns) o = done (answer (first_host ns))
at_extension (other t d) o = onto (o + 4 + length d)

module _ (p : Bytes) (small : length p < 2 ^ 31) where
  extension_step-at :
      (ext_end o : ℕ) (x : Extension) (rest : Bytes)
      → IsExtension x
      → drop o p
        ≡ be16 (extension_type x)
          ++ (be16 (length (extension_data x)) ++ (extension_data x ++ rest))
      → o + 4 + length (extension_data x) ≤ ext_end
      → ext_end ≤ length p
      → extension_step p ext_end o ≡ ok (at_extension x o)
  unfolding extension_step
  extension_step-at ext_end o (server_names ns) rest fits e room inside =
      let l : ℕ = length (extension_data (server_names ns)) in
      let e2 : u32 (o + 2) ≡ o + 2 = omega arith in
      let e4 : u32 (o + 4) ≡ o + 4 = omega arith in
      let en : u32 (o + 4 + l) ≡ o + 4 + l = omega arith in
      let here : drop (o + 2) p
          ≡ be16 l ++ (be16 (length (name_bytes ns)) ++ (name_bytes ns ++ rest)) =
        drop_past o p (be16 0) _ e in
      rw (
        e4,
        le→leb (o + 4) ext_end (omega arith),
        rd16-be16 p o 0 (omega arith) e,
        e2,
        rd16-be16 p (o + 2) l (omega arith) here,
        en,
        ltb-eq-false ext_end (o + 4 + l) (omega arith),
        server_name-at p small (o + 4) l ns rest (omega arith) fits.0 fits.1
            (drop_past o p (be16 0 ++ be16 l) _ e),
      )
  extension_step-at ext_end o (other t d) rest fits e room inside =
      let e2 : u32 (o + 2) ≡ o + 2 = omega arith in
      let e4 : u32 (o + 4) ≡ o + 4 = omega arith in
      let en : u32 (o + 4 + length d) ≡ o + 4 + length d = omega arith in
      rw
        (
          e4,
          le→leb (o + 4) ext_end (omega arith),
          rd16-be16 p o t fits.1 e,
          e2,
          rd16-be16 p (o + 2) (length d) fits.2 (drop_past o p (be16 t) _ e),
          en,
          ltb-eq-false ext_end (o + 4 + length d) (omega arith),
        )
        (elim (Bool-cases (t == 0)) [ inl zero_type ↦ absurd (ground arith) | inr skip ↦ rw skip ])

  walk-at :
      (es : List Extension) (fuel ext_end o : ℕ)
      → All IsExtension es
      → drop o p ≡ extension_bytes es
      → o ≤ length p
      → ext_end ≡ length p
      → ext_end < fuel + o
      → walk fuel (extension_step p ext_end) o ≡ ok (answer (sni_of es))
  unfolding walk
  walk-at es zero ext_end o fits e low ends enough = absurd (omega arith)
  walk-at [] (suc fuel) ext_end o fits e low ends enough =
      let total = length_at o p [] e low in
      unfold extension_step in rw (leb-eq-false (u32 (o + 4)) ext_end (omega arith))
  walk-at (server_names ns ∷ es) (suc fuel) ext_end o fits e low ends enough =
      let total = length_at o p (extension_bytes (server_names ns ∷ es)) e low in
      let lengths = length-append (name_bytes ns) (extension_bytes es) in
      rw (
        extension_step-at ext_end o (server_names ns) (extension_bytes es) fits.0 e (omega arith)
          (omega arith))
  walk-at (other t d ∷ es) (suc fuel) ext_end o fits e low ends enough =
      let total = length_at o p (extension_bytes (other t d ∷ es)) e low in
      let lengths = length-append d (extension_bytes es) in
      rw
        (extension_step-at ext_end o (other t d) (extension_bytes es) fits.0 e (omega arith)
          (omega arith))
        (walk-at es fuel ext_end (o + 4 + length d) fits.1
          (drop_past (o + 4) p d (extension_bytes es)
            (drop_past o p (be16 t ++ be16 (length d)) _ e))
          (omega arith) ends (omega arith))

  parse_extensions-at :
      (o : ℕ) (es : List Extension)
      → All IsExtension es
      → length (extension_bytes es) < 65536
      → drop o p ≡ be16 (length (extension_bytes es)) ++ extension_bytes es
      → parse_extensions p o ≡ ok (answer (sni_of es))
  unfolding parse_extensions
  parse_extensions-at o es fits short e =
      let total = length_at_cons o p e in
      let l = length (extension_bytes es) in
      let e2 : u32 (o + 2) ≡ o + 2 = omega arith in
      let en : u32 (o + 2 + l) ≡ length p = omega arith in
      rw
        (
          e2,
          le→leb (o + 2) (length p) (omega arith),
          rd16-be16 p o l short e,
          en,
          ltb-eq-false (length p) (length p) (omega arith),
        )
        (unfold walk_extensions in
          walk-at es (suc (length p)) (length p) (o + 2) fits (drop_past o p (be16 l) _ e)
            (omega arith) refl (omega arith))

  parse_cipher_suites-at :
      (h : ClientHello) (o : ℕ)
      → IsHello h
      → drop o p ≡ hello_tail h
      → parse_cipher_suites p o ≡ ok (answer (sni_of h.extensions))
  unfolding parse_cipher_suites parse_compression
  parse_cipher_suites-at h o w e =
      let total = length_at_cons o p e in
      let cs = length h.cipher_suites in
      let cm = length h.compression_methods in
      let suites = drop_past o p (be16 cs) _ e in
      let methods = drop_past (o + 2) p h.cipher_suites _ suites in
      let total' = length_at_cons (o + 2 + cs) p methods in
      let o1 = o + 2 + cs in
      let last = drop_past (o1 + 1) p h.compression_methods _ (drop_past_one o1 p methods) in
      let e2 : u32 (o + 2) ≡ o + 2 = omega arith in
      let e3 : u32 (o + (2 + cs)) ≡ o1 = omega arith in
      let e4 : u32 (o1 + 1) ≡ o1 + 1 = omega arith in
      let byte : cm % 256 ≡ cm = omega (arith, w.compression_methods_length) in
      let e5 : u32 (o1 + (1 + cm)) ≡ o1 + 1 + cm = omega (arith, w.compression_methods_length) in
      rw
        (
          e2,
          le→leb (o + 2) (length p) (omega arith),
          rd16-be16 p o cs w.cipher_suites_length e,
          e3,
          e4,
          le→leb (o1 + 1) (length p) (omega arith),
          read-drop p o1 methods,
          byte,
          e5,
        )
        (parse_extensions-at (o1 + 1 + cm) h.extensions w.extensions_fit w.extensions_length last)

-- A ClientHello message whose lengths fit their fields and whose body has at most 65535 bytes gives the
-- first name of the type host_name in its first server_name extension, and no name if it has no such
-- extension or that has no such name.
pub parse_client_hello-hello_message :
    (h : ClientHello)
    → IsHello h
    → parse_client_hello (hello_message h) ≡ ok (answer (sni_of h.extensions))
unfolding parse_client_hello parse_body
parse_client_hello-hello_message h w =
    let p = hello_message h in
    let rest = length h.session_id ∷ (h.session_id ++ hello_tail h) in
    let start : Bytes = 0x01 ∷ be24 (length (hello_body h)) in
    let at_random = drop_past 4 p h.version (h.random ++ rest) refl in
    let at_session = drop_past (4 + length h.version) p h.random rest at_random in
    let o : 4 + length h.version + length h.random ≡ 38 =
      omega (arith, w.version_length, w.random_length) in
    let at_session' : drop 38 p ≡ rest = rw o at at_session in
    let total = length_at_cons 38 p at_session' in
    let small : length p < 2 ^ 31 = omega (arith, w.body_length) in
    let sid = length h.session_id in
    let byte : sid % 256 ≡ sid = omega (arith, w.session_id_length) in
    let next : u32 (38 + (1 + sid)) ≡ 38 + 1 + sid = omega (arith, w.session_id_length) in
    rw
      (
        ltb-eq-false (length p) 4 (omega arith),
        read-drop p 0 {b = 0x01} refl,
        le→leb 39 (length p) (omega arith),
        read-drop p 38 at_session',
        byte,
        next,
      )
      (parse_cipher_suites-at p small h (38 + 1 + sid) w
        (drop_past (38 + 1) p h.session_id (hello_tail h) (drop_past_one 38 p at_session')))
