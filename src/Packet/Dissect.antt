-- ===== src/Packet/Dissect.antt =====
-- The dissection of src/packet.cpp: `parseL4`, `parseIPv4`, `parseIPv6`, `parseFlow` and the flow key.
-- Each returns whether it succeeded, the flow as written so far, and the payload's span.
use packet_inspector.Base.{
  ℕ, zero, suc, ◌+◌, ◌-◌, ◌*◌, ◌/◌, ◌%◌, ◌^◌, Bool, true, false, not, ◌&&◌, ◌||◌, Option, none,
  some, [], ◌∷◌, ◌++◌, ltb, leb, ◌==◌, if◌then◌else◌, Bytes, length, drop, replicate, u32,
}
use packet_inspector.Memory.{Outcome, ok, ◌>>=◌, read, rd16, span}

-- `payload` and `payload_len` are one span; a null payload is the empty one.
pub record FlowView : Type 0 where
  pub ip_version : ℕ
  pub ip_proto : ℕ
  pub src_ip : Bytes
  pub dst_ip : Bytes
  pub src_port : ℕ
  pub dst_port : ℕ
  pub payload : Bytes
  pub tcp_flags : ℕ
  pub key : ℕ

abbrev pub no_flow : FlowView
no_flow = record {
  ip_version = 0;
  ip_proto = 0;
  src_ip = replicate 16 0;
  dst_ip = replicate 16 0;
  src_port = 0;
  dst_port = 0;
  payload = [];
  tcp_flags = 0;
  key = 0;
}

abbrev pub Dissected : Type 0
Dissected = Bool × FlowView × Bytes

abbrev pub refuse : FlowView → Outcome Dissected
refuse flow = ok (false, flow, [])

abbrev pub proto_tcp : ℕ
proto_tcp = 6

abbrev pub proto_udp : ℕ
proto_udp = 17

-- `memcpy` into the first bytes of an address field.
abbrev overwrite : Bytes → Bytes → Bytes
overwrite new field = new ++ drop (length new) field

unfoldable pub parse_tcp : Bytes → FlowView → Outcome Dissected
parse_tcp l4 flow = if ltb (length l4) 20 then refuse flow else do
  src_port ← rd16 l4 0
  dst_port ← rd16 l4 2
  flags ← read l4 13
  let seen = record flow { src_port = src_port; dst_port = dst_port; tcp_flags = flags }
  offset ← read l4 12
  let data_off = offset / 16 * 4
  if ltb data_off 20 || ltb (length l4) data_off
      then refuse seen
      else do payload ← span l4 data_off (length l4 - data_off); ok (true, seen, payload)

unfoldable pub parse_udp : Bytes → FlowView → Outcome Dissected
parse_udp l4 flow = if ltb (length l4) 8 then refuse flow else do
  src_port ← rd16 l4 0
  dst_port ← rd16 l4 2
  udp_len ← rd16 l4 4
  let plen = length l4 - 8
  payload ← span l4 8 (if leb 8 udp_len && leb (udp_len - 8) plen then udp_len - 8 else plen)
  ok (true, record flow { src_port = src_port; dst_port = dst_port }, payload)

unfoldable pub parse_l4 : ℕ → Bytes → FlowView → Outcome Dissected
parse_l4 proto l4 flow =
    let flow' = record flow { ip_proto = proto } in
    if proto == proto_tcp
    then parse_tcp l4 flow'
    else if proto == proto_udp
    then parse_udp l4 flow'
    else refuse flow'

-- From the fragment field on.
unfoldable pub parse_ipv4_body : Bytes → ℕ → FlowView → Outcome Dissected
parse_ipv4_body p ihl flow = do
  fragment ← rd16 p 6
  if not (fragment % 0x2000 == 0) then refuse flow else do
    src ← span p 12 4
    dst ← span p 16 4
    total_len ← rd16 p 2
    let l3_len = if leb ihl total_len && leb total_len (length p) then total_len else length p
    proto ← read p 9
    l4 ← span p ihl (l3_len - ihl)
    parse_l4 proto l4
        (record flow { src_ip = overwrite src flow.src_ip; dst_ip = overwrite dst flow.dst_ip })

unfoldable pub parse_ipv4 : Bytes → FlowView → Outcome Dissected
parse_ipv4 p flow = if ltb (length p) 20 then refuse flow else do
  first ← read p 0
  let ihl = first % 16 * 4
  let flow' = record flow { ip_version = 4 }
  if ltb ihl 20 || ltb (length p) ihl then refuse flow' else parse_ipv4_body p ihl flow'

-- What a round of the walk over IPv6 extension headers ends in.
pub data Header : Type 0 where
  bad : Header
  following : ℕ → ℕ → Header

-- Hop-by-hop, routing, destination options and mobility.
abbrev pub is_skipped_header : ℕ → Bool
is_skipped_header next = next == 0 || next == 43 || next == 60 || next == 135

-- The `switch` on the next header; `next` and `off` for the following round.
unfoldable pub skip_header : Bytes → ℕ → ℕ → ℕ → Outcome Header
skip_header p l3_len next off =
    if is_skipped_header next
    then if ltb l3_len (u32 (off + 2)) then ok bad else (do
      next' ← read p off
      hdr_ext_len ← read p (u32 (off + 1))
      let off' = u32 (off + u32 ((hdr_ext_len + 1) * 8))
      ok (if ltb l3_len off' then bad else following next' off'))
    else if next == 44
    then if ltb l3_len (u32 (off + 8)) then ok bad else (do
      fragment ← rd16 p (u32 (off + 2))
      if not (fragment / 8 == 0)
          then ok bad
          else do next' ← read p off; ok (following next' (u32 (off + 8))))
    else ok bad

-- The bounded walk, with the rounds that are left.
unfoldable pub walk_headers : ℕ → Bytes → ℕ → ℕ → ℕ → FlowView → Outcome Dissected
walk_headers zero p l3_len next off flow = refuse flow
walk_headers (suc rounds) p l3_len next off flow = elim (next == proto_tcp || next == proto_udp) [
  | true ↦ do l4 ← span p off (l3_len - off); parse_l4 next l4 flow
  | false ↦ skip_header p l3_len next off >>= elim [
    | bad ↦ refuse flow
    | following next' off' ↦ walk_headers rounds p l3_len next' off' flow
  ]
]

abbrev pub max_v6_ext_headers : ℕ
max_v6_ext_headers = 8

unfoldable pub parse_ipv6 : Bytes → FlowView → Outcome Dissected
parse_ipv6 p flow = if ltb (length p) 40 then refuse flow else do
  plen ← rd16 p 4
  src ← span p 8 16
  dst ← span p 24 16
  next ← read p 6
  walk_headers max_v6_ext_headers p (if leb (40 + plen) (length p) then 40 + plen else length p)
      next 40
      (record flow {
        ip_version = 6;
        src_ip = overwrite src flow.src_ip;
        dst_ip = overwrite dst flow.dst_ip;
      })

-- `h = h * 131 + b` over the address, in a 64-bit `size_t`.
unfoldable pub hash_bytes : ℕ → Bytes → ℕ
hash_bytes h [] = h
hash_bytes h (b ∷ ip) = hash_bytes ((h * 131 + b % 256) % 2 ^ 64) ip

unfoldable pub endpoint_hash : Bytes → ℕ → ℕ
endpoint_hash ip port = u32 ((hash_bytes 0 ip * 131 + port) % 2 ^ 64)

unfoldable pub route_key : FlowView → ℕ
route_key f =
    let a = endpoint_hash f.src_ip f.src_port in
    let b = endpoint_hash f.dst_ip f.dst_port in
    let lo = if ltb a b then a else b in
    let hi = if ltb a b then b else a in
    u32 ((((f.ip_proto * 1000003 + lo) % 2 ^ 64) * 1000003 + hi) % 2 ^ 64)

-- `parseFlow`, on a null pointer or a span.
unfoldable pub parse_flow : Option Bytes → Outcome Dissected
parse_flow none = refuse no_flow
parse_flow (some p) = if ltb (length p) 1 then refuse no_flow else do
  first ← read p 0
  let version = first / 16
  if version == 4
      then parse_ipv4 p no_flow
      else if version == 6
      then parse_ipv6 p no_flow
      else refuse no_flow
