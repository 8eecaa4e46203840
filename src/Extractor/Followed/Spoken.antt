-- ===== src/Extractor/Followed/Spoken.antt =====
-- The client's bytes in the callbacks of the reassembler, and what a flow on its own learns from them.
use packet_inspector.Base.{
  ◌^◌, ◌≤◌, ◌<◌, ◌≡◌, ◌≢◌, refl, sym, ap, ◌∙◌, ◌⊎◌, inl, inr, Option, none, some, List, [], ◌∷◌,
  ◌++◌, arith, append_assoc, append-nil, ltb, ◌==◌, if◌then◌else◌, Bool-cases, Bytes, length,
  length-append, take, take-append-length, u32,
}
use packet_inspector.Memory.{ok}
use packet_inspector.Tls.{extract_hostname}
use packet_inspector.Tls.Records.{HostnameResult, found, not_found, need_more}
use packet_inspector.Tls.Hello.Names.{answer}
use packet_inspector.Tls.Correct.{extract_hostname-Returns, extract_hostname-append}
use packet_inspector.Extractor.State.{
  Event, connection_start, message_ready, connection_end, max_stream_bytes,
}
use packet_inspector.Extractor.Callbacks.{hostname_in}
use packet_inspector.Extractor.Followed.{Course, reading, settled, judge, hear}
use packet_inspector.Extractor.Followed.Heard.{hear_server, hear_client}

-- The client's bytes, in the order of the callbacks.
abbrev pub client_bytes : List Event → Bytes
client_bytes [] = []
client_bytes (connection_start flow_key ∷ xs) = client_bytes xs
client_bytes (connection_end ∷ xs) = client_bytes xs
client_bytes (message_ready side flow_key bytes ∷ xs) =
    if side == 0 then bytes ++ client_bytes xs else client_bytes xs

-- The connection does not end.
abbrev pub IsOpen : List Event → Type 0
IsOpen [] = Unit {0}
IsOpen (connection_start flow_key ∷ xs) = IsOpen xs
IsOpen (connection_end ∷ xs) = ⊥
IsOpen (message_ready side flow_key bytes ∷ xs) = IsOpen xs

take_all : (p : Bytes) → take (length p) p ≡ p
take_all p = ap (take (length p)) (sym (append-nil p)) ∙ take-append-length (length p) p [] refl

pub hostname_in-small :
    (p : Bytes) {h : HostnameResult}
    → length p < 2 ^ 32
    → extract_hostname p ≡ ok h
    → hostname_in p ≡ h
unfolding hostname_in
hostname_in-small p small e =
    let fits : u32 (length p) ≡ length p = grind arith in rw (hostname_in, fits, take_all p, e) refl

-- A hostname, or that there is none, is not unlearnt.
hostname_in-append :
    (p q : Bytes)
    → length (p ++ q) < 2 ^ 32
    → hostname_in p ≢ need_more
    → hostname_in (p ++ q) ≡ hostname_in p
hostname_in-append p q small known =
    let tiny : length p < 2 ^ 32 = omega (arith, length-append p q) in
    let (r, is, _) = extract_hostname-Returns p tiny in
    let here = hostname_in-small p tiny is in
    hostname_in-small (p ++ q) small
      (extract_hostname-append p q small is (λ z. known (here ∙ z)) ∙ ap ok (sym here))

-- What is learnt of a stream that is within the limit.
judge-answer :
    (stream : Bytes) (name : Option Bytes)
    → hostname_in stream ≡ answer name
    → judge stream ≡ settled name
unfolding judge
judge-answer stream none is = rw (judge, is) refl
judge-answer stream (some host) is = rw (judge, is) refl

judge-need_more :
    (stream : Bytes)
    → hostname_in stream ≡ need_more
    → length stream ≤ max_stream_bytes
    → judge stream ≡ reading stream
unfolding judge
judge-need_more stream is fits = elim (Bool-cases (ltb max_stream_bytes (length stream))) [
  | inl over ↦ absurd (ground arith)
  | inr under ↦ rw (judge, is, under) refl
]

pub Course-cases :
    (course : Course)
    → ((stream : Bytes) × (course ≡ reading stream))
      ⊎ ((name : Option Bytes) × (course ≡ settled name))
Course-cases (reading stream) = inl (stream, refl)
Course-cases (settled name) = inr (name, refl)

judge-reading :
    (h : HostnameResult) (stream longer : Bytes)
    → hostname_in stream ≡ h
    → judge stream ≡ reading longer
    → (longer ≡ stream) × (hostname_in stream ≡ need_more)
judge-reading (found host) stream longer is reads = cc (judge-answer stream (some host) is)
judge-reading not_found stream longer is reads = cc (judge-answer stream none is)
judge-reading need_more stream longer is reads =
    elim (Bool-cases (ltb max_stream_bytes (length stream))) [
      | inl over ↦ unfold judge in cc (rw (judge, is, over) at reads)
      | inr under ↦
          let same : reading longer ≡ reading stream =
            sym reads ∙ judge-need_more stream is (ground arith) in
          (ground arith, is)
    ]

-- A flow that waits on has had all the client's bytes added to its stream, and asks for more.
pub hear-reading :
    (xs : List Event) (stream longer : Bytes)
    → hostname_in stream ≡ need_more
    → hear xs stream ≡ reading longer
    → (longer ≡ stream ++ client_bytes xs) × (hostname_in longer ≡ need_more)
unfolding hear
hear-reading [] stream longer more reads =
    let same : longer ≡ stream = ground arith in (same ∙ sym (append-nil stream), rw same more)
hear-reading (connection_start flow_key ∷ xs) stream longer more reads =
    hear-reading xs stream longer more reads
hear-reading (connection_end ∷ xs) stream longer more reads = cc
hear-reading (message_ready side flow_key bytes ∷ xs) stream longer more reads =
    elim (Bool-cases (side == 0)) [
      | inr server ↦ rw server (
          hear-reading xs stream longer more
            (sym (hear_server side flow_key bytes xs stream server) ∙ reads))
      | inl client ↦ elim (Course-cases (judge (stream ++ bytes))) [
        | inr (name, judged) ↦
            cc (sym (hear_client side flow_key bytes xs stream _ client judged) ∙ reads)
        | inl (next, judged) ↦
            let j = judge-reading _ (stream ++ bytes) next refl judged in
            let rest =
              hear-reading xs next longer (rw j.0 j.1)
                (sym (hear_client side flow_key bytes xs stream _ client judged) ∙ reads) in
            rw client
              (rest.0 ∙ ap (λ s. s ++ client_bytes xs) j.0 ∙ append_assoc stream bytes _, rest.1)
      ]
    ]

HostnameResult-cases : (h : HostnameResult) → (h ≡ need_more) ⊎ (h ≢ need_more)
HostnameResult-cases (found host) = inr (λ z. cc)
HostnameResult-cases not_found = inr (λ z. cc)
HostnameResult-cases need_more = inl refl

answer-known : (name : Option Bytes) → answer name ≢ need_more
answer-known none z = cc
answer-known (some host) z = cc

-- Once the client's bytes have a hostname, or have none, within the limit, the flow is settled with
-- it, though it were learnt before the last of them.
pub hear-answer :
    (xs : List Event) (stream : Bytes) (name : Option Bytes)
    → IsOpen xs
    → hostname_in stream ≡ need_more
    → length (stream ++ client_bytes xs) ≤ max_stream_bytes
    → hostname_in (stream ++ client_bytes xs) ≡ answer name
    → hear xs stream ≡ settled name
unfolding hear
hear-answer [] stream name lasts more fits is =
    absurd (answer-known name (sym is ∙ ap hostname_in (append-nil stream) ∙ more))
hear-answer (connection_start flow_key ∷ xs) stream name lasts more fits is =
    hear-answer xs stream name lasts more fits is
hear-answer (connection_end ∷ xs) stream name lasts more fits is = absurd lasts
hear-answer (message_ready side flow_key bytes ∷ xs) stream name lasts more fits is =
    elim (Bool-cases (side == 0)) [
      | inr server ↦
          hear_server side flow_key bytes xs stream server
          ∙ hear-answer xs stream name lasts more (rw server at fits) (rw server at is)
      | inl client ↦
          let next = stream ++ bytes in
          let whole : stream ++ (bytes ++ client_bytes xs) ≡ next ++ client_bytes xs =
            sym (append_assoc stream bytes (client_bytes xs)) in
          let fits' : length (next ++ client_bytes xs) ≤ max_stream_bytes =
            rw whole at (rw client at fits) in
          let is' : hostname_in (next ++ client_bytes xs) ≡ answer name =
            rw whole at (rw client at is) in
          elim (HostnameResult-cases (hostname_in next)) [
            | inl early ↦
                hear_client side flow_key bytes xs stream _ client (
                  judge-need_more next early
                    (omega (arith, length-append next (client_bytes xs), fits')))
                ∙ hear-answer xs next name lasts early fits' is'
            | inr known ↦ hear_client side flow_key bytes xs stream _ client (
                judge-answer next name (
                  sym (hostname_in-append next (client_bytes xs) (omega (arith, fits')) known)
                  ∙ is'))
          ]
    ]
