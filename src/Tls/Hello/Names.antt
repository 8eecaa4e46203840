-- ===== src/Tls/Hello/Names.antt =====
-- The loop over a ServerNameList on the lists of Tls.Wire.
use packet_inspector.Base.{
  ℕ, zero, suc, ◌+◌, ◌%◌, ◌^◌, ◌≤◌, ◌<◌, ◌≡◌, ap, ◌∙◌, inl, inr, List, [], ◌∷◌, ◌++◌, Option, none,
  some, append_assoc, arith, ◌==◌, if◌then◌else◌, Bool-cases, ltb-eq-false, le→leb, leb-eq-false,
  Bytes, length, drop, u32, All, length-append,
}
use packet_inspector.Memory.{ok}
use packet_inspector.Memory.Cursor.{read-drop, span-drop, drop_past, drop_past_one, length_at_cons}
use packet_inspector.Tls.Records.Fields.{rd16-be16}
use packet_inspector.Tls.Records.{HostnameResult, found, not_found}
use packet_inspector.Tls.Hello.{done, onto, walk, name_step, walk_names, server_name}
use packet_inspector.Tls.Wire.{be16, ServerName, name_bytes, IsServerName, first_host}

-- The result that stands for a host name, or for none.
abbrev pub answer : Option Bytes → HostnameResult
answer none = not_found
answer (some host) = found host

module _ (p : Bytes) (small : length p < 2 ^ 31) where
  name_step-at :
      (list_end o : ℕ) (n : ServerName) (rest : Bytes)
      → IsServerName n
      → drop o p ≡ n.name_type ∷ (be16 (length n.name) ++ (n.name ++ rest))
      → o + 3 + length n.name ≤ list_end
      → list_end ≤ length p
      → name_step p list_end o
        ≡ (if n.name_type == 0 then ok (done (found n.name)) else ok (onto (o + 3 + length n.name)))
  unfolding name_step
  name_step-at list_end o n rest fits e room inside =
      let e1 : u32 (o + 1) ≡ o + 1 = omega arith in
      let e3 : u32 (o + 3) ≡ o + 3 = omega arith in
      let en : u32 (o + 3 + length n.name) ≡ o + 3 + length n.name = omega arith in
      let name_at =
        drop_past (o + 1) p (be16 (length n.name)) (n.name ++ rest) (drop_past_one o p e) in
      let e3' : o + 1 + 2 ≡ o + 3 = omega arith in
      let t : n.name_type % 256 ≡ n.name_type = omega arith in
      rw
        (
          e3,
          le→leb (o + 3) list_end (omega arith),
          read-drop p o e,
          e1,
          rd16-be16 p (o + 1) (length n.name) fits.1 (drop_past_one o p e),
          en,
          ltb-eq-false list_end (o + 3 + length n.name) room,
          t,
        )
        (elim (Bool-cases (n.name_type == 0)) [
          | inl host ↦ rw (host, span-drop p (o + 3) n.name rest (rw e3' at name_at) (omega arith))
          | inr skip ↦ rw skip
        ])

  pub names-walk :
      (ns : List ServerName) (fuel list_end o : ℕ) (rest : Bytes)
      → All IsServerName ns
      → drop o p ≡ name_bytes ns ++ rest
      → list_end ≡ o + length (name_bytes ns)
      → list_end ≤ length p
      → list_end < fuel + o
      → walk fuel (name_step p list_end) o ≡ ok (answer (first_host ns))
  unfolding walk
  names-walk ns zero list_end o rest fits e ends inside enough = absurd (omega arith)
  names-walk [] (suc fuel) list_end o rest fits e ends inside enough =
      unfold name_step in rw (leb-eq-false (u32 (o + 3)) list_end (omega arith))
  names-walk (n ∷ ns) (suc fuel) list_end o rest fits e ends inside enough =
      let e' =
        e
        ∙ ap (λ r. n.name_type ∷ (be16 (length n.name) ++ r))
            (append_assoc n.name (name_bytes ns) rest) in
      let lengths = length-append n.name (name_bytes ns) in
      let room : o + 3 + length n.name ≤ list_end = omega (arith, lengths) in
      let head : drop (o + 3) p ≡ n.name ++ (name_bytes ns ++ rest) =
        drop_past o p (n.name_type ∷ be16 (length n.name)) (n.name ++ (name_bytes ns ++ rest)) e' in
      rw (name_step-at list_end o n (name_bytes ns ++ rest) fits.0 e' room inside)
        (elim (Bool-cases (n.name_type == 0)) [
          | inl host ↦ rw host
          | inr skip ↦ rw skip (
              names-walk ns fuel list_end (o + 3 + length n.name) rest fits.1
                (drop_past (o + 3) p n.name (name_bytes ns ++ rest) head) (omega (arith, lengths))
                inside (omega arith))
        ])

  -- The whole extension: its list length, then the names.
  pub server_name-at :
      (o elen : ℕ) (ns : List ServerName) (rest : Bytes)
      → elen ≡ 2 + length (name_bytes ns)
      → All IsServerName ns
      → length (name_bytes ns) < 65534
      → drop o p ≡ be16 (length (name_bytes ns)) ++ (name_bytes ns ++ rest)
      → server_name p o elen ≡ ok (answer (first_host ns))
  unfolding server_name
  server_name-at o elen ns rest whole fits short e =
      let l = length (name_bytes ns) in
      let total = length_at_cons o p e in
      let lengths = length-append (name_bytes ns) rest in
      let o2 : u32 (o + 2) ≡ o + 2 = omega arith in
      let ends : u32 (o + elen) ≡ o + 2 + l = omega arith in
      let named : u32 (o + 2 + l) ≡ o + 2 + l = omega arith in
      rw
        (
          o2,
          ends,
          ltb-eq-false (o + 2 + l) (o + 2) (omega arith),
          rd16-be16 p o l (omega arith) e,
          named,
          ltb-eq-false (o + 2 + l) (o + 2 + l) (omega arith),
        )
        (unfold walk_names in
          (names-walk ns (suc (length p)) (o + 2 + l) (o + 2) rest fits
            (drop_past o p (be16 l) (name_bytes ns ++ rest) e) (omega arith) (omega arith)
            (omega arith)))
