-- ===== src/Program/Threads.antt =====
-- `start`, `join` and the destructor of src/worker.cpp, and where src/main.cpp calls them. The thread's
-- work is in Service.
use packet_inspector.Base.{
  ℕ, ◌+◌, ◌≤◌, ◌≡◌, refl, sym, subst, inl, inr, Bool, true, false, Option, none, some, List, [],
  ◌∷◌, ◌++◌, arith, if◌then◌else◌, ◌||◌, Bool-cases, All,
}

-- The calls that a worker makes for its thread: `std::thread`'s constructor,
-- `pthread_setaffinity_np` with the CPU, and `std::thread::join`.
pub data ThreadCall : Type 0 where
  spawn wait : ThreadCall
  pin : ℕ → ThreadCall

pub record Thread : Type 0 where
  pub joinable : Bool
  pub made : List ThreadCall

abbrev pub no_thread : Thread
no_thread = record { joinable = false; made = [] }

abbrev pub pins : Option ℕ → List ThreadCall
pins none = []
pins (some cpu) = pin cpu ∷ []

-- What becomes of the thread, and whether its constructor has thrown, which it does unless it `creates`.
unfoldable pub start_thread : Option ℕ → Bool → Thread → Thread × Bool
start_thread pin_cpu creates t =
    if t.joinable
    then (t, false)
    else if creates
    then (record { joinable = true; made = t.made ++ spawn ∷ pins pin_cpu }, false)
    else (t, true)

unfoldable pub join_thread : Thread → Thread
join_thread t = if t.joinable then record { joinable = false; made = t.made ++ wait ∷ [] } else t

-- A worker: its thread, the CPU to pin it to, and whether a thread can be made for it.
pub record Hand : Type 0 where
  pub thread : Thread
  pub pin_cpu : Option ℕ
  pub creates : Bool

-- The loop over the workers that starts them, up to one whose start throws.
unfoldable pub start_workers : List Hand → List Hand × Bool
start_workers [] = ([], false)
start_workers (h ∷ hs) =
    let started = start_thread h.pin_cpu h.creates h.thread in
    let rest = start_workers hs in
    if started.1
    then (record h { thread = started.0 } ∷ hs, true)
    else (record h { thread = started.0 } ∷ rest.0, rest.1)

-- The loop that joins the workers; also `workers.clear()`, with the destructor's join.
unfoldable pub join_workers : List Hand → List Hand
join_workers [] = []
join_workers (h ∷ hs) = record h { thread = join_thread h.thread } ∷ join_workers hs

-- `main` from the starts to `workers.clear()`: the joins are left out when a start has thrown, or the
-- constructor of the statistics thread behind the starts.
unfoldable pub run_all : Bool → List Hand → List Hand
run_all stats_throws hs =
    let started = start_workers hs in
    join_workers (if started.1 || stats_throws then started.0 else join_workers started.0)

abbrev pub spawns : List ThreadCall → ℕ
spawns [] = 0
spawns (spawn ∷ cs) = 1 + spawns cs
spawns (wait ∷ cs) = spawns cs
spawns (pin cpu ∷ cs) = spawns cs

abbrev pub waits : List ThreadCall → ℕ
waits [] = 0
waits (spawn ∷ cs) = waits cs
waits (wait ∷ cs) = 1 + waits cs
waits (pin cpu ∷ cs) = waits cs

counts-append :
    (xs ys : List ThreadCall)
    → (spawns (xs ++ ys) ≡ spawns xs + spawns ys) × (waits (xs ++ ys) ≡ waits xs + waits ys)
counts-append [] ys = (omega arith, omega arith)
counts-append (spawn ∷ xs) ys = let h = counts-append xs ys in (omega (arith, h.0), h.1)
counts-append (wait ∷ xs) ys = let h = counts-append xs ys in (h.0, omega (arith, h.1))
counts-append (pin cpu ∷ xs) ys = counts-append xs ys

-- There is a thread to join exactly if one more was made than was joined; there was one at most.
record IsBalanced (t : Thread) : Type 0 where
  balance : spawns t.made ≡ waits t.made + (if t.joinable then 1 else 0)
  once : spawns t.made ≤ 1

pins-counts : (cpu : Option ℕ) → (spawns (pins cpu) ≡ 0) × (waits (pins cpu) ≡ 0)
pins-counts none = (refl, refl)
pins-counts (some cpu) = (refl, refl)

start_thread-IsBalanced :
    (cpu : Option ℕ) (creates : Bool) (t : Thread)
    → spawns t.made ≡ 0
    → IsBalanced t
    → IsBalanced (start_thread cpu creates t).0
unfolding start_thread
start_thread-IsBalanced cpu creates t new b = elim (Bool-cases t.joinable) [
  | inl runs ↦ let odd = rw runs at b.balance in rw runs (record { balance = odd; once = b.once })
  | inr free ↦ elim (Bool-cases creates) [
    | inl made ↦
        let c = counts-append t.made (spawn ∷ pins cpu) in
        let p = pins-counts cpu in
        let even = rw free at b.balance in
        rw (free, made)
          (record {
            balance = omega (arith, c.0, c.1, p.0, p.1, even);
            once = omega (arith, c.0, p.0, new);
          })
    | inr fails ↦
        let even = rw free at b.balance in
        rw (free, fails) (record { balance = even; once = b.once })
  ]
]

join_thread-IsBalanced :
    (t : Thread) → IsBalanced t → IsBalanced (join_thread t) × ((join_thread t).joinable ≡ false)
unfolding join_thread
join_thread-IsBalanced t b = elim (Bool-cases t.joinable) [
  | inl runs ↦
      let c = counts-append t.made (wait ∷ []) in
      let odd = rw runs at b.balance in
      rw runs
        (record { balance = omega (arith, c.0, c.1, odd); once = omega (arith, c.0, b.once) }, refl)
  | inr free ↦
      let even = rw free at b.balance in rw free (record { balance = even; once = b.once }, refl)
]

-- The worker has no thread yet.
abbrev pub IsNew : Hand → Type 0
IsNew h = h.thread ≡ no_thread

-- One thread at most was made for the worker, and it was joined.
abbrev pub IsJoined : Hand → Type 0
IsJoined h = (spawns h.thread.made ≡ waits h.thread.made) × (spawns h.thread.made ≤ 1)

abbrev HandBalanced : Hand → Type 0
HandBalanced h = IsBalanced h.thread

no_thread-IsBalanced : (t : Thread) → t ≡ no_thread → IsBalanced t × (spawns t.made ≡ 0)
no_thread-IsBalanced t is =
    subst (λ x. IsBalanced x × (spawns x.made ≡ 0)) (sym is)
      (record { balance = refl; once = omega arith }, refl)

new-HandBalanced : (hs : List Hand) → All IsNew hs → All HandBalanced hs
new-HandBalanced [] n = tt
new-HandBalanced (h ∷ hs) n = ((no_thread-IsBalanced h.thread n.0).0, new-HandBalanced hs n.1)

start_workers-HandBalanced : (hs : List Hand) → All IsNew hs → All HandBalanced (start_workers hs).0
unfolding start_workers
start_workers-HandBalanced [] n = tt
start_workers-HandBalanced (h ∷ hs) n =
    let new = no_thread-IsBalanced h.thread n.0 in
    let first = start_thread-IsBalanced h.pin_cpu h.creates h.thread new.1 new.0 in
    elim (Bool-cases (start_thread h.pin_cpu h.creates h.thread).1) [
      | inl threw ↦ rw threw (first, new-HandBalanced hs n.1)
      | inr fine ↦ rw fine (first, start_workers-HandBalanced hs n.1)
    ]

join_workers-HandBalanced :
    (hs : List Hand) → All HandBalanced hs → All HandBalanced (join_workers hs)
unfolding join_workers
join_workers-HandBalanced [] b = tt
join_workers-HandBalanced (h ∷ hs) b =
    ((join_thread-IsBalanced h.thread b.0).0, join_workers-HandBalanced hs b.1)

join_workers-IsJoined : (hs : List Hand) → All HandBalanced hs → All IsJoined (join_workers hs)
unfolding join_workers
join_workers-IsJoined [] b = tt
join_workers-IsJoined (h ∷ hs) b =
    let j = join_thread-IsBalanced h.thread b.0 in
    let even = rw j.1 at j.0.balance in
    ((omega (arith, even), j.0.once), join_workers-IsJoined hs b.1)

-- For workers that are new, whichever of them a thread cannot be made for, and whether or not one can be
-- made for the statistics: when `main` has cleared its workers, at most one thread has been made for
-- each, and each thread that was made has been joined once.
pub run_all-IsJoined :
    (stats_throws : Bool) (hs : List Hand) → All IsNew hs → All IsJoined (run_all stats_throws hs)
unfolding run_all
run_all-IsJoined stats_throws hs n =
    let b = start_workers-HandBalanced hs n in
    elim (Bool-cases ((start_workers hs).1 || stats_throws)) [
      | inl threw ↦ rw threw (join_workers-IsJoined (start_workers hs).0 b)
      | inr fine ↦ rw fine (
          join_workers-IsJoined (join_workers (start_workers hs).0)
            (join_workers-HandBalanced (start_workers hs).0 b))
    ]
