-- ===== src/Setup/Balance.antt =====
-- What the constructor and the destructor of `NFQueue` leave open.
use packet_inspector.Base.{
  ℕ, ◌≡◌, refl, Bool, true, false, ◌&&◌, Option, none, some, List, [], ◌∷◌, ◌++◌, not,
  if◌then◌else◌,
}
use packet_inspector.Setup.{
  NfqCall, open_socket, bind_pf, create_queue, set_mode, set_maxlen, force_rcvbuf, set_rcvbuf,
  no_enobufs, destroy_queue, close_socket, Answers, Handles, no_handles, SetupResult, bound, threw,
  bail, set_options, copy_packets, claim_queue, bind_family, open_queue, close_queue,
}

-- A call where the libraries allow it, that succeeds: on a socket that is open, or on a queue of it;
-- a second socket or queue, and closing a socket that has a queue, is refused.
abbrev pub permit : NfqCall → Handles → Option Handles
permit open_socket h =
    if h.has_socket then none else some (record { has_socket = true; has_queue = false })
permit bind_pf h = if h.has_socket then some h else none
permit create_queue h =
    if h.has_socket && not h.has_queue then some (record h { has_queue = true }) else none
permit set_mode h = if h.has_queue then some h else none
permit set_maxlen h = if h.has_queue then some h else none
permit force_rcvbuf h = if h.has_socket then some h else none
permit set_rcvbuf h = if h.has_socket then some h else none
permit no_enobufs h = if h.has_socket then some h else none
permit destroy_queue h = if h.has_queue then some (record h { has_queue = false }) else none
permit close_socket h =
    if h.has_socket && not h.has_queue then some (record h { has_socket = false }) else none

abbrev pub is_call : NfqCall → NfqCall → Bool
is_call open_socket open_socket = true
is_call create_queue create_queue = true
is_call _ _ = false

abbrev pub opens_nothing : Option NfqCall → NfqCall → Bool
opens_nothing none call = false
opens_nothing (some what) call = is_call what call

-- What is open after the calls, of which the named one, if any, has failed and has opened nothing.
abbrev pub replay : Option NfqCall → List NfqCall → Handles → Option Handles
replay failed [] h = some h
replay failed (call ∷ calls) h = elim (opens_nothing failed call) [
  | true ↦ replay failed calls h
  | false ↦ elim (permit call h) [ none ↦ none | some h' ↦ replay failed calls h' ]
]

-- The calls of an object's life: of the constructor and, unless it has thrown, of the destructor.
abbrev pub life : SetupResult → List NfqCall
life (bound h made) = made ++ close_queue h
life (threw what err made) = made

abbrev pub culprit : SetupResult → Option NfqCall
culprit (bound h made) = none
culprit (threw what err made) = some what

-- Whether the constructor has returned with both handles set.
abbrev pub is_bound : SetupResult → Bool
is_bound (bound h made) = h.has_socket && h.has_queue
is_bound (threw what err made) = false

-- The first `errno` of the calls that may fail.
abbrev pub first_error : Answers → Option ℕ
first_error a = elim a.on_open [
  | some err ↦ some err
  | none ↦ elim a.on_bind [
    | some err ↦ some err
    | none ↦ elim a.on_create [ some err ↦ some err | none ↦ a.on_mode ]
  ]
]

abbrev pub thrown : SetupResult → Option ℕ
thrown (bound h made) = none
thrown (threw what err made) = some err

abbrev IsBalanced : Answers → Type 0
IsBalanced a =
    (replay (culprit (open_queue a)) (life (open_queue a)) no_handles ≡ some no_handles)
    × (thrown (open_queue a) ≡ first_error a)
    × (is_bound (open_queue a) ≡ elim (first_error a) [ none ↦ true | some err ↦ false ])

IsBalanced-by_case :
    (on_open on_bind on_create on_mode : Option ℕ) (force_refused : Bool)
    → IsBalanced (record {
      on_open = on_open;
      on_bind = on_bind;
      on_create = on_create;
      on_mode = on_mode;
      force_refused = force_refused;
    })
unfolding open_queue bind_family claim_queue copy_packets set_options bail close_queue
IsBalanced-by_case (some err) on_bind on_create on_mode force_refused = (refl, refl, refl)
IsBalanced-by_case none (some err) on_create on_mode force_refused = (refl, refl, refl)
IsBalanced-by_case none none (some err) on_mode force_refused = (refl, refl, refl)
IsBalanced-by_case none none none (some err) force_refused = (refl, refl, refl)
IsBalanced-by_case none none none none true = (refl, refl, refl)
IsBalanced-by_case none none none none false = (refl, refl, refl)

-- Whichever calls fail: the constructor, and the destructor if the constructor returns, make only calls
-- that are allowed by what is open when they make them, and at the end every socket and queue that was opened is
-- closed. The constructor throws the first error that a call has reported, and returns, with its socket
-- and its queue open, if there is none.
pub open_queue-balanced :
    (a : Answers)
    → (replay (culprit (open_queue a)) (life (open_queue a)) no_handles ≡ some no_handles)
      × (thrown (open_queue a) ≡ first_error a)
      × (is_bound (open_queue a) ≡ elim (first_error a) [ none ↦ true | some err ↦ false ])
open_queue-balanced a = IsBalanced-by_case a.on_open a.on_bind a.on_create a.on_mode a.force_refused
