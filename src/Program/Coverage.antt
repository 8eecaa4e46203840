-- ===== src/Program/Coverage.antt =====
-- Which queues are bound when `main` of src/main.cpp returns 0.
use packet_inspector.Base.{
  ℕ, zero, suc, ◌+◌, ◌%◌, ◌^◌, ◌≤◌, ◌<◌, ◌≡◌, ◌⊎◌, refl, sym, ap, ◌∙◌, ltb, inl, inr, Bool, true,
  false, none, some, List, [], ◌∷◌, arith, Bool-cases, Bytes, All,
}
use packet_inspector.Cli.{Config, Number, worker_count, last_queue_num, parse}
use packet_inspector.Cli.Accepted.{parse-InRange}
use packet_inspector.Setup.{NfqCall, Answers, SetupResult, bound, threw, open_queue}
use packet_inspector.Setup.Balance.{thrown, first_error, open_queue-balanced}
use packet_inspector.Program.Threads.{start_thread, start_workers}
use packet_inspector.Program.{
  Plan, plan, Crew, build, crew, review, hands, stats_throws, System, run_crew, main_result,
}

-- The numbers from `first` on.
abbrev pub consecutive : ℕ → ℕ → List ℕ
consecutive first zero = []
consecutive first (suc n) = first ∷ consecutive (first + 1) n

abbrev pub queues : List Plan → List ℕ
queues [] = []
queues (w ∷ ws) = w.queue_num ∷ queues ws

-- The workers from the number `i` on.
abbrev pub plans : Config → ℕ → ℕ → List Plan
plans c i zero = []
plans c i (suc n) = plan c i ∷ plans c (i + 1) n

abbrev pub all_plans : Config → List Plan
all_plans c = plans c 0 (worker_count c)

queues-plans :
    (c : Config) (i n : ℕ)
    → c.queue_num + i + n ≤ 65536
    → queues (plans c i n) ≡ consecutive (c.queue_num + i) n
unfolding plan
queues-plans c i zero fits = refl
queues-plans c i (suc n) fits =
    let number : (c.queue_num + i) % 2 ^ 16 ≡ c.queue_num + i = omega (arith, fits) in
    let step : c.queue_num + (i + 1) ≡ c.queue_num + i + 1 = omega arith in
    let later = rw step at (queues-plans c (i + 1) n (omega (arith, fits))) in
    rw (number, later) refl

-- None of the calls that the constructor of the worker's queue must have fails.
abbrev pub Opens : (Plan → Answers) → Plan → Type 0
Opens answers p = first_error (answers p) ≡ none

module _ (answers : Plan → Answers) (c : Config) where
  -- All workers were built, and all of their queues open; or one does not, and the constructor threw.
  abbrev IsBuilt : ℕ → ℕ → Crew → Type 0
  IsBuilt i n crew =
      ((crew.thrown ≡ none) × (crew.workers ≡ plans c i n) × All (Opens answers) (plans c i n))
      ⊎ ((e : NfqCall × ℕ) × (crew.thrown ≡ some e) × (¬ All (Opens answers) (plans c i n)))

  tells : (p : Plan) → thrown (open_queue (answers p)) ≡ first_error (answers p)
  tells p = (open_queue-balanced (answers p)).1

  next-IsBuilt :
      (i n : ℕ) (s : SetupResult)
      → open_queue (answers (plan c i)) ≡ s
      → IsBuilt (i + 1) n (build answers c (i + 1) n)
      → IsBuilt i (suc n) (build answers c i (suc n))
  unfolding build
  next-IsBuilt i n (threw what err made) is rest =
      let error : some err ≡ first_error (answers (plan c i)) = rw is at (tells (plan c i)) in
      rw (is, build) (inr ((what, err), refl, λ all. cc (error ∙ all.0)))
  next-IsBuilt i n (bound h made) is rest =
      let fine : none ≡ first_error (answers (plan c i)) = rw is at (tells (plan c i)) in
      rw (is, build)
        (elim rest [
          | inl (whole, same, good) ↦ inl (whole, ap (◌∷◌ (plan c i)) same, (sym fine, good))
          | inr (e, broken, why) ↦ inr (e, broken, λ all. why all.1)
        ])

  build-IsBuilt : (i n : ℕ) → IsBuilt i n (build answers c i n)
  unfolding build
  build-IsBuilt i zero = inl (refl, refl, tt)
  build-IsBuilt i (suc n) =
      next-IsBuilt i n (open_queue (answers (plan c i))) refl (build-IsBuilt (i + 1) n)

-- A thread can be made for each of the workers, or one cannot and its start throws.
abbrev AreStarted : (Plan → Bool) → List Plan → Bool → Type 0
AreStarted creates ws fails =
    ((fails ≡ false) × All (λ p. creates p ≡ true) ws)
    ⊎ ((fails ≡ true) × (¬ All (λ p. creates p ≡ true) ws))

start_workers-AreStarted :
    (creates : Plan → Bool) (ws : List Plan)
    → AreStarted creates ws (start_workers (hands creates ws)).1
unfolding start_workers start_thread hands
start_workers-AreStarted creates [] = inl (refl, tt)
start_workers-AreStarted creates (w ∷ ws) = elim (Bool-cases (creates w)) [
  | inl can ↦ elim (start_workers-AreStarted creates ws) [
    | inl (fine, all) ↦ rw (can, fine) (inl (refl, (refl, all)))
    | inr (fails, why) ↦ rw (can, fails) (inr (refl, λ all. why all.1))
  ]
  | inr cannot ↦ rw cannot (inr (refl, λ all. cc (all.0)))
]

-- A thread can be made for the statistics, if one is wanted.
abbrev pub StatsStart : Config → Bool → Type 0
StatsStart c creates = (c.stats_interval_s ≡ 0) ⊎ (creates ≡ true)

stats_throws-StatsStart :
    (c : Config) (creates : Bool)
    → ((stats_throws c creates ≡ false) × StatsStart c creates)
      ⊎ ((stats_throws c creates ≡ true) × (¬ StatsStart c creates))
unfolding stats_throws
stats_throws-StatsStart c true = inl (ground arith, inr refl)
stats_throws-StatsStart c false = elim (Bool-cases (ltb 0 c.stats_interval_s)) [
  | inl wanted ↦ inr (rw wanted refl, elim [ inl none_is ↦ absurd (ground arith) | inr can ↦ cc ])
  | inr unwanted ↦ inl (rw unwanted refl, inl (ground arith))
]

-- None of the queues has failed.
abbrev pub NoneFailed : (Plan → Bool) → List Plan → Type 0
NoneFailed failed ws = All (λ w. failed w ≡ false) ws

-- The exit code is 1 and was 1 before or a queue has failed, or it is as before and none has.
abbrev IsVerdict : (Plan → Bool) → List Plan → ℕ → ℕ → Type 0
IsVerdict failed ws rc result =
    ((result ≡ 1) × ((rc ≡ 1) ⊎ (¬ NoneFailed failed ws))) ⊎ ((result ≡ rc) × NoneFailed failed ws)

review-IsVerdict :
    (failed : Plan → Bool) (ws : List Plan) (rc : ℕ) → IsVerdict failed ws rc (review failed ws rc)
unfolding review
review-IsVerdict failed [] rc = inr (refl, tt)
review-IsVerdict failed (w ∷ ws) rc = elim (Bool-cases (failed w)) [
  | inl broken ↦ rw broken (elim (review-IsVerdict failed ws 1) [
    | inl (one, why) ↦ inl (one, inr (λ fine. cc (fine.0)))
    | inr (one, fine) ↦ inl (one, inr (λ fine. cc (fine.0)))
  ])
  | inr healthy ↦ rw healthy (elim (review-IsVerdict failed ws rc) [
    | inl (one, inl before) ↦ inl (one, inl before)
    | inl (one, inr later) ↦ inl (one, inr (λ fine. later fine.1))
    | inr (same, fine) ↦ inr (same, (refl, fine))
  ])
]

-- The block list was loaded, the stop descriptor was there, each worker's queue opened and a thread could
-- be made for it, and for the statistics if they are wanted, and no worker's queue has failed.
pub record IsFit (c : Config) (s : System) (failed : Plan → Bool) : Type 0 where
  pub listed : s.loads ≡ true
  pub stoppable : s.has_stop_fd ≡ true
  pub opened : All (Opens s.answers) (all_plans c)
  pub started : All (λ p. s.creates p ≡ true) (all_plans c)
  pub reported : StatsStart c s.creates_stats
  pub sound : NoneFailed failed (all_plans c)

-- The workers have bound the queues from the first to the last number of the range, once each.
abbrev pub RangeBound : Config → (Plan → Answers) → Type 0
RangeBound c answers =
    (queues (crew answers c).workers ≡ consecutive c.queue_num (worker_count c))
    × (c.queue_num + worker_count c ≡ last_queue_num c + 1)

-- The exit code is 1, or it is 0 and all is well.
abbrev pub Decides : Config → System → (Plan → Bool) → ℕ → Type 0
Decides c s failed result =
    ((result ≡ 1) × (¬ IsFit c s failed))
    ⊎ ((result ≡ 0) × IsFit c s failed × RangeBound c s.answers)

run_crew-Decides :
    (c : Config) (s : System) (failed : Plan → Bool)
    → s.loads ≡ true
    → s.has_stop_fd ≡ true
    → c.queue_num + worker_count c ≤ 65536
    → last_queue_num c + 1 ≡ c.queue_num + worker_count c
    → Decides c s failed (run_crew c s failed (crew s.answers c))
unfolding run_crew crew
run_crew-Decides c s failed loads stops fits last =
    elim (build-IsBuilt s.answers c 0 (worker_count c)) [
      | inr (e, broken, why) ↦ inl (rw (broken, run_crew) refl, λ fit. why fit.opened)
      | inl (whole, same, good) ↦ elim (start_workers-AreStarted s.creates (all_plans c)) [
        | inr (fails, why) ↦ inl (rw (whole, same, fails) refl, λ fit. why fit.started)
        | inl (fine, started) ↦ elim (stats_throws-StatsStart c s.creates_stats) [
          | inr (fails, why) ↦ inl (rw (whole, same, fine, fails) refl, λ fit. why fit.reported)
          | inl (calm, reported) ↦ elim (review-IsVerdict failed (all_plans c) 0) [
            | inl (one, inl before) ↦ absurd (ground arith)
            | inl (one, inr failing) ↦
                inl (rw (whole, same, fine, calm) one, λ fit. failing fit.sound)
            | inr (zero_is, sound) ↦
                let first : c.queue_num + 0 ≡ c.queue_num = omega arith in
                let numbers = queues-plans c 0 (worker_count c) (omega (arith, fits)) in
                inr (
                  rw (whole, same, fine, calm) zero_is,
                  record {
                    listed = loads;
                    stoppable = stops;
                    opened = good;
                    started = started;
                    reported = reported;
                    sound = sound;
                  },
                  (ap queues same ∙ rw first at numbers, omega (arith, last)),
                )
          ]
        ]
      ]
    ]

last_queue_num-lt : (c : Config) → last_queue_num c < 65536
unfolding last_queue_num
last_queue_num-lt c = omega arith

-- Where the arguments let the program run, `main` returns 0 or 1. It returns 0 exactly if the block list
-- was loaded, the stop descriptor was there, each worker's queue opened, a thread could be made for each
-- worker and, if an interval is set, for the statistics, and no worker's queue has failed; then the
-- workers have bound each queue from `queue_num` to `last_queue_num` once, in order and without
-- wrap-around.
pub main_result-Decides :
    (strtoull : Bytes → Number) (args : List Bytes) (s : System) (failed : Plan → Bool)
    → (parse strtoull args).should_exit ≡ false
    → Decides (parse strtoull args).config s failed (main_result (parse strtoull args) s failed)
unfolding main_result
main_result-Decides strtoull args s failed runs =
    let c = (parse strtoull args).config in
    let last = (parse-InRange strtoull args runs).1 in
    elim (Bool-cases s.loads) [
      | inr unread ↦ simp (runs, unread, main_result) (inl (refl, λ fit. cc (fit.listed)))
      | inl loads ↦ elim (Bool-cases s.has_stop_fd) [
        | inr unstoppable ↦
            simp (runs, loads, unstoppable, main_result) (inl (refl, λ fit. cc (fit.stoppable)))
        | inl stops ↦
            simp (runs, loads, stops, main_result)
              (run_crew-Decides c s failed loads stops (omega (arith, last, last_queue_num-lt c))
                last)
      ]
    ]
