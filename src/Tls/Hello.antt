-- ===== src/Tls/Hello.antt =====
-- `parseClientHello` of src/hostname_extractor.cpp: the SNI host_name of a whole ClientHello message.
-- `o`, `q`, `ext_end` and `list_end` are `uint32_t` offsets into the message.
pub mod Bounds
pub mod Names
pub mod Correct
use packet_inspector.Base.{
  ℕ, zero, suc, ◌+◌, Bool, not, ltb, leb, ◌==◌, if◌then◌else◌, Bytes, length, u32,
}
use packet_inspector.Memory.{Outcome, ok, out_of_fuel, ◌>>=◌, read, rd16, span}
use packet_inspector.Tls.Records.{HostnameResult, found, not_found}

-- What one round of a loop ends in: a result, or the next offset.
pub data Walk : Type 0 where
  done : HostnameResult → Walk
  onto : ℕ → Walk

-- A loop on its offset; each round goes on by at least three bytes.
unfoldable pub walk : ℕ → (ℕ → Outcome Walk) → ℕ → Outcome HostnameResult
walk zero body o = out_of_fuel
walk (suc fuel) body o = body o >>= elim [ done r ↦ ok r | onto o' ↦ walk fuel body o' ]

-- One name of the ServerNameList.
unfoldable pub name_step : Bytes → ℕ → ℕ → Outcome Walk
name_step p list_end q =
    if leb (u32 (q + 3)) list_end
    then (do
      name_type ← read p q
      name_len ← rd16 p (u32 (q + 1))
      let q' = u32 (q + 3)
      if ltb list_end (u32 (q' + name_len))
          then ok (done not_found)
          else if name_type == 0x00
          then (do host ← span p q' name_len; ok (done (found host)))
          else ok (onto (u32 (q' + name_len))))
    else ok (done not_found)

-- The loop over the names.
unfoldable pub walk_names : Bytes → ℕ → ℕ → Outcome HostnameResult
unfolding walk name_step
walk_names p list_end = walk (suc (length p)) (name_step p list_end)

-- The server_name extension, whose data is `p[o .. o + elen)`.
unfoldable pub server_name : Bytes → ℕ → ℕ → Outcome HostnameResult
server_name p o elen =
    let list_end = u32 (o + elen) in
    if ltb list_end (u32 (o + 2)) then ok not_found else do
      list_length ← rd16 p o
      let named = u32 (o + 2 + list_length)
      walk_names p (if ltb named list_end then named else list_end) (u32 (o + 2))

-- One extension.
unfoldable pub extension_step : Bytes → ℕ → ℕ → Outcome Walk
extension_step p ext_end o =
    if leb (u32 (o + 4)) ext_end
    then (do
      etype ← rd16 p o
      elen ← rd16 p (u32 (o + 2))
      let o' = u32 (o + 4)
      if ltb ext_end (u32 (o' + elen))
          then ok (done not_found)
          else if etype == 0x0000
          then (do r ← server_name p o' elen; ok (done r))
          else ok (onto (u32 (o' + elen))))
    else ok (done not_found)

-- The loop over the extensions.
unfoldable pub walk_extensions : Bytes → ℕ → ℕ → Outcome HostnameResult
unfolding walk extension_step
walk_extensions p ext_end = walk (suc (length p)) (extension_step p ext_end)

-- `have(k)`
abbrev pub has : Bytes → ℕ → ℕ → Bool
has p o k = leb (u32 (o + k)) (length p)

unfoldable pub parse_extensions : Bytes → ℕ → Outcome HostnameResult
parse_extensions p o = if not (has p o 2) then ok not_found else do
  total ← rd16 p o
  let ext_end = u32 (o + 2 + total)
  walk_extensions p (if ltb (length p) ext_end then length p else ext_end) (u32 (o + 2))

unfoldable pub parse_compression : Bytes → ℕ → Outcome HostnameResult
parse_compression p o =
    if not (has p o 1)
    then ok not_found
    else do n ← read p o; parse_extensions p (u32 (o + (1 + n)))

unfoldable pub parse_cipher_suites : Bytes → ℕ → Outcome HostnameResult
parse_cipher_suites p o =
    if not (has p o 2)
    then ok not_found
    else do n ← rd16 p o; parse_compression p (u32 (o + (2 + n)))

unfoldable pub parse_body : Bytes → Outcome HostnameResult
parse_body p =
    if not (has p 4 35)
    then ok not_found
    else do session_id_len ← read p 38; parse_cipher_suites p (u32 (38 + (1 + session_id_len)))

unfoldable pub parse_client_hello : Bytes → Outcome HostnameResult
parse_client_hello p =
    if ltb (length p) 4
    then ok not_found
    else do kind ← read p 0; if not (kind == 0x01) then ok not_found else parse_body p
