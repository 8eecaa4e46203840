-- ===== src/Tls/Correct.antt =====
-- About `extractHostname` of src/hostname_extractor.cpp as a whole.
use packet_inspector.Base.{
  ◌^◌, ◌≤◌, ◌<◌, ◌≡◌, ◌≢◌, ◌⊎◌, refl, sym, ◌∙◌, inl, inr, List, ◌∷◌, ◌++◌, arith, Bytes, length,
  All, length-append,
}
use packet_inspector.Memory.{ok, ◌>>=◌, Returns, Returns-ok, Returns-bind}
use packet_inspector.Tls.Records.{HostnameResult, found, not_found, need_more, collect_handshake}
use packet_inspector.Tls.Records.Bounds.{IsMessage, collect_handshake-Returns}
use packet_inspector.Tls.Records.Stable.{collect_handshake-Keeps}
use packet_inspector.Tls.Records.Collected.{collect_handshake-at}
use packet_inspector.Tls.Hello.Bounds.{parse_client_hello-Returns}
use packet_inspector.Tls.Hello.Names.{answer}
use packet_inspector.Tls.Hello.Correct.{parse_client_hello-hello_message}
use packet_inspector.Tls.Wire.{
  Fragment, IsFragment, record_layer, payloads, ClientHello, IsHello, hello_message, hello_body,
  hello_tail, sni_of,
}
use packet_inspector.Tls.{after_collect, extract_hostname}

after_collect-Returns :
    (r : HostnameResult) → IsMessage r → Returns (after_collect r) (λ _. Unit {0})
unfolding after_collect
after_collect-Returns (found m) h = parse_client_hello-Returns m (omega arith)
after_collect-Returns not_found h = Returns-ok _ tt
after_collect-Returns need_more h = Returns-ok _ tt

-- On any stream shorter than 2^32 bytes, whatever the bytes are, every read of `extractHostname` is
-- in bounds and both its loops end: it returns a result.
pub extract_hostname-Returns :
    (p : Bytes) → length p < 2 ^ 32 → Returns (extract_hostname p) (λ _. Unit {0})
unfolding extract_hostname
extract_hostname-Returns p small =
    Returns-bind _ _ (collect_handshake-Returns p small) after_collect-Returns

-- On a stream shorter than 2^32 bytes: a result other than `NeedMore` for a part of the stream is
-- the result for all of it.
pub extract_hostname-append :
    (p q : Bytes) {r : HostnameResult}
    → length (p ++ q) < 2 ^ 32
    → extract_hostname p ≡ ok r
    → r ≢ need_more
    → extract_hostname (p ++ q) ≡ ok r
unfolding extract_hostname after_collect
extract_hostname-append p q {r} small e ne =
    let tiny : length p < 2 ^ 32 = omega (arith, length-append p q) in
    let (c, collected, _) = collect_handshake-Returns p tiny in
    keep c collected (collect_handshake-Keeps p q small c collected)
  where
    keep :
        (c : HostnameResult)
        → collect_handshake p ≡ ok c
        → (c ≢ need_more → collect_handshake (p ++ q) ≡ ok c)
        → (collect_handshake (p ++ q) >>= after_collect) ≡ ok r
    keep need_more h k = absurd (ne (let early = rw h at e in cc))
    keep not_found h k = rw (k (λ x. cc)) (rw h at e)
    keep (found m) h k = rw (k (λ x. cc)) (rw h at e)

hello_body-length : (h : ClientHello) → IsHello h → 34 ≤ length (hello_body h)
hello_body-length h w = omega (
  arith,
  w.version_length,
  w.random_length,
  length-append h.version (h.random ++ (length h.session_id ∷ (h.session_id ++ hello_tail h))),
  length-append h.random (length h.session_id ∷ (h.session_id ++ hello_tail h)),
)

-- A ClientHello whose lengths fit their fields and whose body has at most 65535 bytes, cut into any
-- non-empty records of at most 2^14 bytes, in a stream shorter than 2^32 bytes: the result is the first
-- host_name of its first server_name extension, or no name if there is none. The last record and the
-- stream may go on behind it.
pub extract_hostname-record_layer :
    (h : ClientHello) (fs : List Fragment) (extra rest : Bytes)
    → IsHello h
    → All IsFragment fs
    → payloads fs ≡ hello_message h ++ extra
    → length (record_layer fs ++ rest) < 2 ^ 32
    → extract_hostname (record_layer fs ++ rest) ≡ ok (answer (sni_of h.extensions))
unfolding extract_hostname after_collect
extract_hostname-record_layer h fs extra rest w sizes joined small =
    rw
      (collect_handshake-at (record_layer fs ++ rest) (hello_body h) extra rest small
        (hello_body-length h w) w.body_length fs sizes refl joined)
      (parse_client_hello-hello_message h w)

-- For every part that a stream shorter than 2^32 bytes begins with, where the stream carries such a
-- ClientHello in such records: the result is `NeedMore`, or the first host_name of the ClientHello's
-- first server_name extension (no name if there is none).
pub extract_hostname_prefix :
    (h : ClientHello) (fs : List Fragment) (extra rest p q : Bytes)
    → IsHello h
    → All IsFragment fs
    → payloads fs ≡ hello_message h ++ extra
    → length (p ++ q) < 2 ^ 32
    → p ++ q ≡ record_layer fs ++ rest
    → (extract_hostname p ≡ ok need_more) ⊎ (extract_hostname p ≡ ok (answer (sni_of h.extensions)))
extract_hostname_prefix h fs extra rest p q w sizes joined small e =
    let tiny : length p < 2 ^ 32 = omega (arith, length-append p q) in
    let (r, early, _) = extract_hostname-Returns p tiny in
    decide r early (extract_hostname-append p q small early)
  where
    late : extract_hostname (p ++ q) ≡ ok (answer (sni_of h.extensions))
    late = rw e (extract_hostname-record_layer h fs extra rest w sizes joined (rw e at small))

    decide :
        (r : HostnameResult)
        → extract_hostname p ≡ ok r
        → (r ≢ need_more → extract_hostname (p ++ q) ≡ ok r)
        → (extract_hostname p ≡ ok need_more)
          ⊎ (extract_hostname p ≡ ok (answer (sni_of h.extensions)))
    decide need_more early keep = inl early
    decide not_found early keep = inr (early ∙ sym (keep (λ x. cc)) ∙ late)
    decide (found m) early keep = inr (early ∙ sym (keep (λ x. cc)) ∙ late)
