-- ===== src/Packet/Transports.antt =====
-- The reads of the TCP and UDP headers in src/packet.cpp.
use packet_inspector.Base.{
  ℕ, ◌-◌, ◌*◌, ◌/◌, ◌≤◌, ◌≡◌, ◌⊎◌, inl, inr, true, ◌&&◌, ◌||◌, arith, ltb, leb, ◌==◌, if◌then◌else◌,
  le_of_ltb, Bytes, length,
}
use packet_inspector.Memory.{
  Returns, Returns-ok, Returns-bind, Returns-if, read-Returns, rd16-Returns, span-Returns,
}
use packet_inspector.Packet.Dissect.{FlowView, Dissected, refuse, parse_tcp, parse_udp, parse_l4}

-- A dissected packet is TCP or UDP, and its payload is no longer than the packet.
abbrev pub Within : ℕ → Dissected → Type 0
Within n (dissected, flow, payload) =
    dissected ≡ true → (length payload ≤ n) × ((flow.ip_proto ≡ 6) ⊎ (flow.ip_proto ≡ 17))

pub Within-refuse : (n : ℕ) (flow : FlowView) → Returns (refuse flow) (Within n)
Within-refuse n flow = Returns-ok _ (λ h. cc)

module _ (limit : ℕ) (l4 : Bytes) (fits : length l4 ≤ limit) where
  parse_tcp-Returns :
      (flow : FlowView) → flow.ip_proto ≡ 6 → Returns (parse_tcp l4 flow) (Within limit)
  unfolding parse_tcp
  parse_tcp-Returns flow tcp =
      Returns-if (ltb (length l4) 20) (λ _. Within-refuse limit _)
        λ long.
          let long' = le_of_ltb _ _ long in
          Returns-bind _ _ (rd16-Returns l4 0 (omega arith)) λ src _.
            Returns-bind _ _ (rd16-Returns l4 2 (omega arith)) λ dst _.
              Returns-bind _ _ (read-Returns l4 13 (omega arith)) λ flags _.
                Returns-bind _ _ (read-Returns l4 12 (omega arith)) λ offset _.
                  Returns-if (ltb (offset / 16 * 4) 20 || ltb (length l4) (offset / 16 * 4))
                    (λ _. Within-refuse limit _)
                    λ good.
                      let inside : offset / 16 * 4 ≤ length l4 = ground arith in
                      Returns-bind _ _
                        (span-Returns l4 (offset / 16 * 4) (length l4 - offset / 16 * 4)
                          (omega arith))
                        λ payload l. Returns-ok _ λ _. (omega arith, inl tcp)

  parse_udp-Returns :
      (flow : FlowView) → flow.ip_proto ≡ 17 → Returns (parse_udp l4 flow) (Within limit)
  unfolding parse_udp
  parse_udp-Returns flow udp =
      Returns-if (ltb (length l4) 8) (λ _. Within-refuse limit _)
        λ long.
          let long' = le_of_ltb _ _ long in
          Returns-bind _ _ (rd16-Returns l4 0 (omega arith)) λ src _.
            Returns-bind _ _ (rd16-Returns l4 2 (omega arith)) λ dst _.
              Returns-bind _ _ (rd16-Returns l4 4 (omega arith)) λ udp_len _.
                let plen : ℕ =
                  if leb 8 udp_len && leb (udp_len - 8) (length l4 - 8)
                  then udp_len - 8
                  else length l4 - 8 in
                let inside : plen ≤ length l4 - 8 = ground arith in
                Returns-bind _ _ (span-Returns l4 8 plen (omega arith))
                  λ payload l. Returns-ok _ λ _. (omega arith, inr udp)

  pub parse_l4-Returns :
      (proto : ℕ) (flow : FlowView) → Returns (parse_l4 proto l4 flow) (Within limit)
  unfolding parse_l4
  parse_l4-Returns proto flow =
      Returns-if (proto == 6)
        (λ tcp. parse_tcp-Returns (record flow { ip_proto = proto }) (ground arith))
        λ _.
          Returns-if (proto == 17)
            (λ udp. parse_udp-Returns (record flow { ip_proto = proto }) (ground arith))
            λ _. Within-refuse limit _
