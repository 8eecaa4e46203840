-- ===== src/Packet/Bounds.antt =====
-- The reads of the dissection of src/packet.cpp.
use packet_inspector.Base.{
  ℕ, zero, suc, ◌+◌, ◌-◌, ◌*◌, ◌/◌, ◌%◌, ◌^◌, ◌≤◌, ◌<◌, ◌≡◌, ◌⊎◌, refl, inl, inr, Bool, true, false,
  not, ◌&&◌, ◌||◌, Option, none, some, arith, ltb, leb, ◌==◌, if◌then◌else◌, Bool-cases,
  Option-cases, le_of_ltb, Bytes, length, u32,
}
use packet_inspector.Memory.{
  span, Returns, Returns-ok, Returns-bind, Returns-if, read-Returns, rd16-Returns, span-Returns,
}
use packet_inspector.Packet.Dissect.{
  FlowView, Dissected, proto_tcp, proto_udp, parse_ipv4_body, parse_ipv4, Header, bad, following,
  is_skipped_header, skip_header, walk_headers, parse_ipv6, route_key, parse_flow,
}
use packet_inspector.Packet.Key.{route_key-lt}
use packet_inspector.Packet.{Packet, data_of, packet_bytes, flow_view}
use packet_inspector.Packet.Transports.{Within, Within-refuse, parse_l4-Returns}

module _ (p : Bytes) (small : length p < 2 ^ 31) where
  parse_ipv4_body-Returns :
      (ihl : ℕ) (flow : FlowView)
      → 20 ≤ ihl
      → ihl ≤ length p
      → Returns (parse_ipv4_body p ihl flow) (Within (length p))
  unfolding parse_ipv4_body
  parse_ipv4_body-Returns ihl flow low high =
      Returns-bind _ _ (rd16-Returns p 6 (omega arith)) λ fragment _.
        Returns-if (not (fragment % 0x2000 == 0)) (λ _. Within-refuse (length p) _)
          λ _. Returns-bind _ _ (span-Returns p 12 4 (omega arith)) λ src _.
            Returns-bind _ _ (span-Returns p 16 4 (omega arith)) λ dst _.
              Returns-bind _ _ (rd16-Returns p 2 (omega arith)) λ total _.
                Returns-bind _ _ (read-Returns p 9 (omega arith)) λ proto _.
                  let l3 : ℕ = if leb ihl total && leb total (length p) then total else length p in
                  let inside : l3 ≤ length p = ground arith in
                  Returns-bind _ _ (span-Returns p ihl (l3 - ihl) (omega arith))
                    λ l4 l. parse_l4-Returns (length p) l4 (omega arith) proto _

  parse_ipv4-Returns : (flow : FlowView) → Returns (parse_ipv4 p flow) (Within (length p))
  unfolding parse_ipv4
  parse_ipv4-Returns flow =
      Returns-if (ltb (length p) 20) (λ _. Within-refuse (length p) _)
        λ long. Returns-bind _ _ (read-Returns p 0 (omega (arith, le_of_ltb _ _ long))) λ first _.
          Returns-if (ltb (first % 16 * 4) 20 || ltb (length p) (first % 16 * 4))
            (λ _. Within-refuse (length p) _)
            λ good. parse_ipv4_body-Returns (first % 16 * 4) _ (ground arith) (ground arith)

  -- The walk stays inside the layer-3 packet.
  abbrev Stays : ℕ → Header → Type 0
  Stays l3_len bad = Unit {0}
  Stays l3_len (following next off) = off ≤ l3_len

  skip_header-Returns :
      (l3_len next off : ℕ)
      → l3_len ≤ length p
      → off ≤ l3_len
      → Returns (skip_header p l3_len next off) (Stays l3_len)
  unfolding skip_header
  skip_header-Returns l3_len next off h k =
      Returns-if (is_skipped_header next)
        (λ _.
          Returns-if (ltb l3_len (u32 (off + 2))) (λ _. Returns-ok _ tt)
            λ room.
              let two : off + 2 ≤ l3_len = omega (arith, le_of_ltb _ _ room) in
              Returns-bind _ _ (read-Returns p off (omega arith)) λ next' _.
                Returns-bind _ _ (read-Returns p (u32 (off + 1)) (omega arith))
                  λ ext _. Returns-ok _ (stays (u32 (off + u32 ((ext + 1) * 8))) next'))
        (λ _.
          Returns-if (next == 44)
            (λ _.
              Returns-if (ltb l3_len (u32 (off + 8))) (λ _. Returns-ok _ tt)
                λ room.
                  let eight : off + 8 ≤ l3_len = omega (arith, le_of_ltb _ _ room) in
                  Returns-bind _ _ (rd16-Returns p (u32 (off + 2)) (omega arith)) λ fragment _.
                    Returns-if (not (fragment / 8 == 0)) (λ _. Returns-ok _ tt)
                      λ _.
                        Returns-bind _ _ (read-Returns p off (omega arith))
                          λ next' _. Returns-ok _ (le_of_ltb _ _ room))
            (λ _. Returns-ok _ tt))
    where
      stays : (o next' : ℕ) → Stays l3_len (if ltb l3_len o then bad else following next' o)
      stays o next' = ground arith

  walk_headers-Returns :
      (rounds l3_len next off : ℕ) (flow : FlowView)
      → l3_len ≤ length p
      → off ≤ l3_len
      → Returns (walk_headers rounds p l3_len next off flow) (Within (length p))
  unfolding walk_headers
  walk_headers-Returns zero l3_len next off flow h k = Within-refuse (length p) _
  walk_headers-Returns (suc rounds) l3_len next off flow h k =
      elim (Bool-cases (next == proto_tcp || next == proto_udp)) [
        | inl transport ↦
            rw (transport, walk_headers)
              (Returns-bind (span p off (l3_len - off)) _
                (span-Returns p off (l3_len - off) (omega arith))
                λ l4 l. parse_l4-Returns (length p) l4 (omega arith) next flow)
        | inr extension ↦
            rw (extension, walk_headers)
              (Returns-bind (skip_header p l3_len next off) _
                (skip_header-Returns l3_len next off h k)
                (elim [
                  | bad ↦ λ _. Within-refuse (length p) _
                  | following next' off' ↦
                      λ k'. walk_headers-Returns rounds l3_len next' off' flow h k'
                ]))
      ]

  parse_ipv6-Returns : (flow : FlowView) → Returns (parse_ipv6 p flow) (Within (length p))
  unfolding parse_ipv6
  parse_ipv6-Returns flow =
      Returns-if (ltb (length p) 40) (λ _. Within-refuse (length p) _)
        λ long.
          let long' = le_of_ltb _ _ long in
          Returns-bind _ _ (rd16-Returns p 4 (omega arith)) λ plen _.
            Returns-bind _ _ (span-Returns p 8 16 (omega arith)) λ src _.
              Returns-bind _ _ (span-Returns p 24 16 (omega arith)) λ dst _.
                Returns-bind _ _ (read-Returns p 6 (omega arith)) λ next _.
                  let l3 : ℕ = if leb (40 + plen) (length p) then 40 + plen else length p in
                  walk_headers-Returns 8 l3 next 40 _ (ground arith) (ground arith)

parse_flow-Returns :
    (bytes : Option Bytes) (len : ℕ)
    → len < 2 ^ 31
    → ((p : Bytes) → bytes ≡ some p → length p ≡ len)
    → Returns (parse_flow bytes) (Within len)
unfolding parse_flow
parse_flow-Returns none len small size = Within-refuse len _
parse_flow-Returns (some p) len small size =
    let e : length p ≡ len = size p refl in
    rw (← e) (
      Returns-if (ltb (length p) 1) (λ _. Within-refuse (length p) _)
        λ one. Returns-bind _ _ (read-Returns p 0 (le_of_ltb _ _ one)) λ first _.
          Returns-if (first / 16 == 4) (λ _. parse_ipv4-Returns p (omega arith) _)
            λ _.
              Returns-if (first / 16 == 6) (λ _. parse_ipv6-Returns p (omega arith) _)
                λ _. Within-refuse (length p) _)

abbrev pub HasBytes : Option Bytes → ℕ → Type 0
HasBytes none len = Unit {0}
HasBytes (some bytes) len = len ≤ length bytes

-- The pointer has `len` bytes behind it, if it is not null.
abbrev pub IsPacket : Packet → Type 0
IsPacket p = HasBytes (data_of p) p.len

packet_bytes-Returns :
    (p : Packet)
    → IsPacket p
    → Returns (packet_bytes p) (λ r. (bytes : Bytes) → r ≡ some bytes → length bytes ≡ p.len)
unfolding packet_bytes
packet_bytes-Returns p valid = elim (Option-cases (data_of p)) [
  | inl null ↦ rw (null, packet_bytes) (Returns-ok _ λ bytes e. cc)
  | inr (bytes, here) ↦
      let there : p.len ≤ length bytes = rw here at valid in
      rw (here, packet_bytes)
        (Returns-bind (span bytes 0 p.len) _ (span-Returns bytes 0 p.len (omega (arith, there)))
          λ s l. Returns-ok _ λ b e. ground arith)
]

-- What a dissected packet has to be.
abbrev pub IsDissected : Packet → Bool × FlowView → Type 0
IsDissected p (false, flow) = Unit {0}
IsDissected p (true, flow) =
    (length flow.payload ≤ p.len)
    × ((flow.ip_proto ≡ 6) ⊎ (flow.ip_proto ≡ 17))
    × (flow.key < 2 ^ 32)

-- For a packet of less than 2^31 bytes whose pointer has that many bytes behind it or is null: the
-- dissection ends with every read in bounds, whatever the bytes are. Where it succeeds, the packet is
-- TCP or UDP, the payload is no longer than the packet and the key is a 32-bit number.
pub flow_view-Returns :
    (p : Packet) → p.len < 2 ^ 31 → IsPacket p → Returns (flow_view p) (IsDissected p)
unfolding flow_view
flow_view-Returns p small valid = Returns-bind _ _ (packet_bytes-Returns p valid) λ bytes size.
    Returns-bind _ _ (parse_flow-Returns bytes p.len small size)
      λ d within. Returns-ok _ (result d within)
  where
    result :
        (d : Dissected)
        → Within p.len d
        → IsDissected p (
            if d.0
            then (true, record (d.1) { payload = d.2; key = route_key d.1 })
            else (false, d.1))
    result (true, flow, payload) within = ((within refl).0, (within refl).1, route_key-lt flow)
    result (false, flow, payload) within = tt
