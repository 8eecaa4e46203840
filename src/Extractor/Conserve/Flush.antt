-- ===== src/Extractor/Conserve/Flush.antt =====
-- The packets under `flush` of src/hostname_extractor.cpp.
use packet_inspector.Base.{
  ℕ, ◌≤◌, ◌≡◌, ◌≢◌, refl, ap, inl, inr, Option, none, some, List, [], ◌∷◌, arith, ◌==◌, Bool-cases,
  Bytes, length, All,
}
use packet_inspector.Packet.{Verdict}
use packet_inspector.Extractor.Table.{find}
use packet_inspector.Extractor.State.{blocking, Conn, Reassembler, Extractor, is_blocking}
use packet_inspector.Extractor.Ring.{publish}
use packet_inspector.Extractor.Callbacks.{resolve}
use packet_inspector.Extractor.Feed.{waiting_keys, resolve_all, flush}
use packet_inspector.Extractor.Conserve.Tables.{
  count_packets, count_decided, count_held, times, IsTidy,
}
use packet_inspector.Extractor.Conserve.Steps.{Kept, Kept-refl, Kept-then}
use packet_inspector.Extractor.Conserve.Callbacks.{resolve-Kept}
use packet_inspector.Extractor.Conserve.Settle.{resolve-Settles}
use packet_inspector.Extractor.Conserve.Sweep.{drain_closes-Kept}

-- Every flow whose key is not listed is blocked.
abbrev Settled : List ℕ → List (ℕ × Conn) → Type 0
Settled ks m = (k : ℕ) (c : Conn) → All (λ x. k ≢ x) ks → find k m ≡ some c → c.state ≡ blocking

waiting_keys-Settled : (m : List (ℕ × Conn)) → Settled (waiting_keys m) m
unfolding waiting_keys find
waiting_keys-Settled [] k c others there = cc
waiting_keys-Settled ((j, d) ∷ m) k c others there = elim (Bool-cases (is_blocking (some d))) [
  | inl blocked ↦ elim (Bool-cases (j == k)) [
    | inl hit ↦ let same : d ≡ c = ground arith in ground arith
    | inr miss ↦ waiting_keys-Settled m k c (rw blocked at others) (rw miss at there)
  ]
  | inr waits ↦
      let listed = rw waits at others in
      elim (Bool-cases (j == k)) [
        | inl hit ↦ absurd (listed.0 (ground arith))
        | inr miss ↦ waiting_keys-Settled m k c listed.1 (rw miss at there)
      ]
]

count_held-Settled : (i : ℕ) (m : List (ℕ × Conn)) → IsTidy m → Settled [] m → count_held i m ≡ 0
unfolding find
count_held-Settled i [] t s = refl
count_held-Settled i ((j, d) ∷ m) t s =
    omega (arith, ap (count_packets i) (t.0 (s j d tt first)), count_held-Settled i m t.2 rest)
  where
    first : find j ((j, d) ∷ m) ≡ some d
    first = ground arith

    rest : Settled [] m
    rest k c others there = s k c tt (elim (Bool-cases (j == k)) [
      | inl hit ↦
          let same : j ≡ k = ground arith in let gone = rw same at t.1 in cc (rw gone at there)
      | inr miss ↦ rw miss there
    ])

module _ {ℓ} {R : Type ℓ} (r : Reassembler R) (policy : Option Bytes → Verdict) where
  pub resolve_all-Kept :
      (i : ℕ) (ks : List ℕ) (e : Extractor R)
      → IsTidy e.conns
      → Kept i 0 e (resolve_all r policy ks e)
  unfolding resolve_all
  resolve_all-Kept i [] e t = Kept-refl i e t
  resolve_all-Kept i (key ∷ ks) e t =
      let k = resolve-Kept policy i key none e t in
      Kept-then i e _ _ k (resolve_all-Kept i ks _ k.tidy)

  resolve_all-Settled :
      (ks : List ℕ) (e : Extractor R)
      → IsTidy e.conns
      → Settled ks e.conns
      → Settled [] (resolve_all r policy ks e).conns
  unfolding resolve_all
  resolve_all-Settled [] e t s = s
  resolve_all-Settled (key ∷ ks) e t s =
      let k = resolve-Kept policy 0 key none e t in
      let after = resolve-Settles policy key none e t in
      resolve_all-Settled ks (resolve policy key none e) k.tidy λ j c others there.
        elim (Bool-cases (j == key)) [
          | inl hit ↦ let same : j ≡ key = ground arith in after.settled c (rw same at there)
          | inr miss ↦
              let ne : j ≢ key = λ h. ground arith in s j c (ne, others) (after.others j c ne there)
        ]

  -- On a table in which blocked flows hold nothing and no key stands twice: after `flush`, each
  -- packet that was held or decided has been decided as often, and no flow is left.
  pub flush-decides_all :
      (i : ℕ) (e : Extractor R)
      → IsTidy e.conns
      → (count_decided i (flush r policy e).decided ≡ times i e) × ((flush r policy e).conns ≡ [])
  unfolding flush publish
  flush-decides_all i e t =
      let k = resolve_all-Kept i (waiting_keys e.conns) e t in
      let resolved = resolve_all r policy (waiting_keys e.conns) e in
      let released =
        count_held-Settled i resolved.conns k.tidy
          (resolve_all-Settled (waiting_keys e.conns) e t (waiting_keys-Settled e.conns)) in
      let d = drain_closes-Kept r policy i (record resolved { conns = [] }) tt in
      let gone = nothing_left _ d.no_more in
      (omega (arith, k.times_are, d.times_are, released, ap (count_held i) gone), gone)
    where
      nothing_left : (m : List (ℕ × Conn)) → length m ≤ 0 → m ≡ []
      nothing_left [] h = refl
      nothing_left (x ∷ m) h = absurd (omega (arith, h))
