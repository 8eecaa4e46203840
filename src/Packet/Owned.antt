-- ===== src/Packet/Owned.antt =====
-- `materialize` of src/packet.cpp: from a view of the receive buffer to a copy.
use packet_inspector.Base.{
  ℕ, zero, suc, ◌+◌, ◌≤◌, ◌≡◌, refl, ap, true, none, some, [], ◌∷◌, arith, ltb, leb, Bytes, length,
  take, length-take,
}
use packet_inspector.Memory.{ok, span}
use packet_inspector.Packet.Dissect.{parse_flow}
use packet_inspector.Packet.{Packet, packet_view, materialize, packet_bytes, flow_view}

-- The copy of a packet that was a view.
abbrev pub owned_copy : Bytes → ℕ → ℕ → Packet
owned_copy bytes zero id = packet_view none 0 id
owned_copy bytes (suc n) id = record (packet_view none (suc n) id) {
  owned = some (take (suc n) bytes);
}

take_twice : (n : ℕ) (bytes : Bytes) → take n (take n bytes) ≡ take n bytes
take_twice zero bytes = refl
take_twice (suc n) [] = refl
take_twice (suc n) (b ∷ bytes) = ap (◌∷◌ b) (take_twice n bytes)

-- `materialize` on a view of bytes that are there: it does not fail, what it leaves is no view, with the
-- same length and id and still owed a verdict, and `flow_view` dissects it as it did the view.
pub materialize-flow_view :
    (bytes : Bytes) (len id : ℕ)
    → len ≤ length bytes
    → (materialize (packet_view (some bytes) len id) ≡ ok (owned_copy bytes len id))
      × (flow_view (owned_copy bytes len id) ≡ flow_view (packet_view (some bytes) len id))
unfolding materialize flow_view packet_bytes span parse_flow
materialize-flow_view bytes zero id fits =
    let room : leb (0 + 0) (length bytes) ≡ true = ground arith in (refl, rw room refl)
materialize-flow_view bytes (suc n) id fits =
    let some_bytes : ltb 0 (suc n) ≡ true = ground arith in
    let room : leb (0 + suc n) (length bytes) ≡ true = ground (arith, fits) in
    let size : length (take (suc n) bytes) ≡ suc n =
      omega (arith, length-take (suc n) bytes, fits) in
    let room_again : leb (0 + suc n) (length (take (suc n) bytes)) ≡ true = ground (arith, size) in
    (
      rw (some_bytes, room) refl,
      rw (packet_bytes, span, room_again, room, take_twice (suc n) bytes) refl,
    )
