-- ===== src/Tls/Records.antt =====
-- `collectHandshake` of src/hostname_extractor.cpp: the handshake message out of the record layer.
-- The `while` loop is `join_records` over `join_step`; `scratch` is empty when it starts.
pub mod Bounds
pub mod Rounds
pub mod Stable
pub mod Fields
pub mod Headers
pub mod Joining
pub mod Collected
use packet_inspector.Base.{
  ℕ, zero, suc, ◌+◌, ◌*◌, Bool, true, false, not, ◌&&◌, ◌||◌, [], ◌++◌, ltb, leb, ◌==◌,
  if◌then◌else◌, Bytes, length, u32, sub_u32,
}
use packet_inspector.Memory.{Outcome, ok, out_of_fuel, ◌>>=◌, read, rd16, span}

-- `HostnameResult`, with the span that the out parameters receive.
pub data HostnameResult : Type 0 where
  found : Bytes → HostnameResult
  not_found need_more : HostnameResult

-- The 24-bit big-endian message length at `p + o`.
unfoldable pub rd24 : Bytes → ℕ → Outcome ℕ
rd24 p o = do a ← read p o; b ← read p (o + 1); c ← read p (o + 2); ok (a * 65536 + b * 256 + c)

abbrev pub is_bad_message_length : ℕ → Bool
is_bad_message_length n = ltb n 34 || ltb 65535 n

abbrev pub is_bad_record_length : ℕ → Bool
is_bad_record_length n = n == 0 || ltb 16384 n

-- `p[o] != 0x16 || p[o + 1] != 0x03`
unfoldable pub is_other_record : Bytes → ℕ → Outcome Bool
is_other_record p o = do
  kind ← read p o
  if not (kind == 0x16) then ok true else do major ← read p (o + 1); ok (not (major == 0x03))

-- `scratch`, `off` and `want`; a `want` of 0 is a message length that is not known yet.
pub record Joined : Type 0 where
  pub scratch : Bytes
  pub off : ℕ
  pub want : ℕ

-- What one round of the loop ends in.
pub data Round : Type 0 where
  stop : HostnameResult → Round
  again : Joined → Round

-- The condition of the `while`, which also closes the round.
abbrev pub is_short : Joined → Bool
is_short s = s.want == 0 || ltb (length s.scratch) s.want

abbrev pub close_round : ℕ → Joined → Round
close_round len s = if leb len s.off && is_short s then stop need_more else again s

-- The handshake header, read from `scratch` once four bytes are there.
unfoldable pub learn_length : ℕ → Joined → Outcome Round
learn_length len s =
    if s.want == 0 && leb 4 (length s.scratch)
    then (do
      kind ← read s.scratch 0
      if not (kind == 0x01) then ok (stop not_found) else do
        n ← rd24 s.scratch 1
        if is_bad_message_length n
            then ok (stop not_found)
            else ok (close_round len (record s { want = 4 + n })))
    else ok (close_round len s)

-- The body of the loop.
unfoldable pub join_step : Bytes → Joined → Outcome Round
join_step p s = if ltb (sub_u32 (length p) s.off) 5 then ok (stop need_more) else do
  other ← is_other_record p s.off
  if other then ok (stop not_found) else do
    rl ← rd16 p (u32 (s.off + 3))
    if is_bad_record_length rl
        then ok (stop not_found)
        else if ltb (sub_u32 (sub_u32 (length p) s.off) 5) rl
        then ok (stop need_more)
        else do
          chunk ← span p (u32 (s.off + 5)) rl
          learn_length (length p)
              (record s { scratch = s.scratch ++ chunk; off = u32 (s.off + (5 + rl)) })

-- The loop and what follows it.
unfoldable pub join_records : ℕ → Bytes → Joined → Outcome HostnameResult
join_records zero p s = out_of_fuel
join_records (suc fuel) p s = elim (is_short s) [
  | false ↦ do message ← span s.scratch 0 s.want; ok (found message)
  | true ↦ join_step p s >>= elim [ stop r ↦ ok r | again t ↦ join_records fuel p t ]
]

-- `scratch.clear()` and the loop; each round goes at least six bytes on.
unfoldable pub join_all : Bytes → Outcome HostnameResult
join_all p = join_records (suc (length p)) p (record { scratch = []; off = 0; want = 0 })

-- The first record holds the handshake header: all of the message too, or fall through.
unfoldable pub fast_path : Bytes → ℕ → Outcome HostnameResult
fast_path p rec0 = do
  kind ← read p 5
  if not (kind == 0x01) then ok not_found else do
    n ← rd24 p 6
    if is_bad_message_length n
        then ok not_found
        else if leb (4 + n) rec0
        then if ltb (length p) (5 + (4 + n))
          then ok need_more
          else (do message ← span p 5 (4 + n); ok (found message))
        else join_all p

-- `len >= 2 && p[1] != 0x03`
unfoldable pub has_other_major : Bytes → Outcome Bool
has_other_major p =
    if leb 2 (length p) then (do major ← read p 1; ok (not (major == 0x03))) else ok false

-- From the first record's length on.
unfoldable pub collect_payload : Bytes → Outcome HostnameResult
collect_payload p = do
  rec0 ← rd16 p 3
  if is_bad_record_length rec0
      then ok not_found
      else if leb 4 rec0 && leb 9 (length p)
      then fast_path p rec0
      else join_all p

-- The rest of the first record's header.
unfoldable pub check_major : Bytes → Outcome HostnameResult
check_major p = do
  other ← has_other_major p
  if other then ok not_found else if ltb (length p) 5 then ok need_more else collect_payload p

unfoldable pub collect_handshake : Bytes → Outcome HostnameResult
collect_handshake p =
    if ltb (length p) 1
    then ok need_more
    else do kind ← read p 0; if not (kind == 0x16) then ok not_found else check_major p
