-- ===== src/Packet/Walked.antt =====
-- What the walk over IPv6 extension headers of src/packet.cpp makes of a chain of them.
use packet_inspector.Base.{
  ℕ, zero, suc, ◌+◌, ◌-◌, ◌*◌, ◌/◌, ◌%◌, ◌^◌, ◌≤◌, ◌<◌, ◌≡◌, ◌⊎◌, refl, ◌∙◌, inl, inr, true, false,
  ◌||◌, List, [], ◌∷◌, ◌++◌, arith, ltb, ◌==◌, Bytes, length, drop, u32,
}
use packet_inspector.Memory.{ok}
use packet_inspector.Memory.Cursor.{read-drop, span-drop, drop_past, drop_past_one}
use packet_inspector.Tls.Records.Fields.{rd16-be16}
use packet_inspector.Packet.Dissect.{
  FlowView, proto_tcp, proto_udp, following, is_skipped_header, skip_header, walk_headers,
}
use packet_inspector.Packet.Wire.{Transport, tcp, udp, transport_bytes, IsTransport, protocol}
use packet_inspector.Packet.Wire6.{
  ExtHeader, options, atomic, kind, first_of, ext_content, chain_bytes, ext_length, chain_length,
  IsExtHeader, AllExtHeaders,
}
use packet_inspector.Packet.Dissected.{seen, parse_l4-transport_bytes}

kind-lt : (x : ExtHeader) → IsExtHeader x → (kind x < 256) × ((kind x == 6 || kind x == 17) ≡ false)
kind-lt (options k blocks content) (is, small, long) = elim is [
  | inl e ↦ rw e (omega arith, refl)
  | inr (inl e) ↦ rw e (omega arith, refl)
  | inr (inr (inl e)) ↦ rw e (omega arith, refl)
  | inr (inr (inr e)) ↦ rw e (omega arith, refl)
]
kind-lt (atomic bits ident) small = (omega arith, refl)

pub first_of-lt :
    (xs : List ExtHeader) (t : Transport) → AllExtHeaders xs → first_of xs (protocol t) < 256
first_of-lt [] (tcp h) fits = omega arith
first_of-lt [] (udp h) fits = omega arith
first_of-lt (x ∷ xs) t fits = (kind-lt x fits.0).0

is_skipped : (k : ℕ) → (k ≡ 0) ⊎ ((k ≡ 43) ⊎ ((k ≡ 60) ⊎ (k ≡ 135))) → is_skipped_header k ≡ true
is_skipped k (inl e) = rw e refl
is_skipped k (inr (inl e)) = rw e refl
is_skipped k (inr (inr (inl e))) = rw e refl
is_skipped k (inr (inr (inr e))) = rw e refl

is_transport : (t : Transport) → (protocol t == proto_tcp || protocol t == proto_udp) ≡ true
is_transport (tcp h) = refl
is_transport (udp h) = refl

pub length-ext_content : (x : ExtHeader) → IsExtHeader x → length (ext_content x) + 1 ≡ ext_length x
length-ext_content (options k blocks content) (is, small, long) = omega (arith, long)
length-ext_content (atomic bits ident) small = refl

module _ (p : Bytes) (l3_len : ℕ) (small : l3_len < 2 ^ 31) where
  skip_header-ext :
      (x : ExtHeader) (next off : ℕ) (rest : Bytes)
      → IsExtHeader x
      → next < 256
      → drop off p ≡ next ∷ (ext_content x ++ rest)
      → off + ext_length x ≤ l3_len
      → skip_header p l3_len (kind x) off ≡ ok (following next (off + ext_length x))
  unfolding skip_header
  skip_header-ext (options k blocks content) next off rest (is, few, long) byte there inside =
      let second : u32 (off + 1) ≡ off + 1 = omega (arith, inside, small) in
      let room : ltb l3_len (u32 (off + 2)) ≡ false =
        let e : u32 (off + 2) ≡ off + 2 = omega (arith, inside, small) in
        rw e (ground (arith, inside)) in
      let next_is : next % 256 ≡ next = omega (arith, byte) in
      let past : u32 (off + u32 ((blocks % 256 + 1) * 8)) ≡ off + (8 + 8 * blocks) =
        omega (arith, few, inside, small) in
      let fits : ltb l3_len (off + (8 + 8 * blocks)) ≡ false = ground (arith, inside) in
      rw
        (
          is_skipped k is,
          room,
          read-drop p off there,
          second,
          read-drop p (off + 1) (drop_past_one off p there),
          next_is,
          past,
          fits,
        )
        refl
  skip_header-ext (atomic bits ident) next off rest few byte there inside =
      let third : u32 (off + 2) ≡ off + 2 = omega (arith, inside, small) in
      let past : u32 (off + 8) ≡ off + 8 = omega (arith, inside, small) in
      let room : ltb l3_len (off + 8) ≡ false = ground (arith, inside) in
      let next_is : next % 256 ≡ next = omega (arith, byte) in
      let whole : (bits / 8 == 0) ≡ true = ground (arith, few) in
      rw
        (
          past,
          room,
          third,
          rd16-be16 p (off + 2) bits (omega (arith, few)) (drop_past off p (next ∷ 0 ∷ []) _ there),
          whole,
          read-drop p off there,
          next_is,
        )
        refl

  walk_headers-ext :
      (rounds : ℕ) (x : ExtHeader) (next off : ℕ) (rest : Bytes) (flow : FlowView)
      → IsExtHeader x
      → next < 256
      → drop off p ≡ next ∷ (ext_content x ++ rest)
      → off + ext_length x ≤ l3_len
      → walk_headers (suc rounds) p l3_len (kind x) off flow
        ≡ walk_headers rounds p l3_len next (off + ext_length x) flow
  unfolding walk_headers
  walk_headers-ext rounds x next off rest flow fits byte there inside =
      rw ((kind-lt x fits).1, walk_headers, skip_header-ext x next off rest fits byte there inside)
        refl

  -- The walk ends at the transport header, if there are rounds enough.
  pub walk_headers-chain_bytes :
      (xs : List ExtHeader) (rounds off : ℕ) (t : Transport) (payload padding : Bytes)
      (flow : FlowView)
      → length xs < rounds
      → AllExtHeaders xs
      → IsTransport t
      → length (transport_bytes t payload) < 65536
      → drop off p ≡ chain_bytes xs (protocol t) (transport_bytes t payload ++ padding)
      → off + chain_length xs + length (transport_bytes t payload) ≡ l3_len
      → l3_len ≤ length p
      → walk_headers rounds p l3_len (first_of xs (protocol t)) off flow
        ≡ ok (true, seen t flow, payload)
  unfolding walk_headers
  walk_headers-chain_bytes xs zero off t payload padding flow enough fits tf short there len
        inside =
      absurd (omega (arith, enough))
  walk_headers-chain_bytes [] (suc rounds) off t payload padding flow enough fits tf short there len
        inside =
      let l4 = transport_bytes t payload in
      let left : l3_len - off ≡ length l4 = omega (arith, len) in
      rw
        (
          is_transport t,
          walk_headers,
          left,
          span-drop p off l4 padding there (omega (arith, len, inside)),
          parse_l4-transport_bytes t payload flow short tf,
        )
        refl
  walk_headers-chain_bytes (x ∷ xs) (suc rounds) off t payload padding flow enough fits tf short
        there len inside =
      let next = first_of xs (protocol t) in
      let rest = chain_bytes xs (protocol t) (transport_bytes t payload ++ padding) in
      let past = drop_past off p (next ∷ ext_content x) rest there in
      let skipped : length (next ∷ ext_content x) ≡ ext_length x =
        omega (arith, length-ext_content x fits.0) in
      walk_headers-ext rounds x next off rest flow fits.0 (first_of-lt xs t fits.1) there
        (omega (arith, len))
      ∙ walk_headers-chain_bytes xs rounds (off + ext_length x) t payload padding flow
          (omega (arith, enough)) fits.1 tf short (rw skipped at past) (omega (arith, len)) inside
