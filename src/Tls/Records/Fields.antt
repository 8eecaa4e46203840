-- ===== src/Tls/Records/Fields.antt =====
-- The length fields of a stream, read back.
use packet_inspector.Base.{ℕ, ◌+◌, ◌^◌, ◌<◌, ◌≡◌, ap, ◌∙◌, ◌++◌, arith, Bytes, drop}
use packet_inspector.Memory.{ok, rd16}
use packet_inspector.Memory.Cursor.{read-drop, rd16-drop, drop_past_one}
use packet_inspector.Tls.Records.{rd24}
use packet_inspector.Tls.Wire.{be16, be24}

pub rd16-be16 :
    (p : Bytes) (o n : ℕ) {rest : Bytes} → n < 65536 → drop o p ≡ be16 n ++ rest → rd16 p o ≡ ok n
rd16-be16 p o n h e = rd16-drop p o e ∙ ap ok (omega arith)

pub rd24-be24 :
    (p : Bytes) (o n : ℕ) {rest : Bytes} → n < 2 ^ 24 → drop o p ≡ be24 n ++ rest → rd24 p o ≡ ok n
unfolding rd24
rd24-be24 p o n h e =
    let e1 = drop_past_one o p e in
    let two : o + 1 + 1 ≡ o + 2 = omega arith in
    let e2 = rw two at (drop_past_one (o + 1) p e1) in
    rw (read-drop p o e, read-drop p (o + 1) e1, read-drop p (o + 2) e2) (ap ok (omega arith))
