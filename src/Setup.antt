-- ===== src/Setup.antt =====
-- The constructor and the destructor of `NFQueue` in src/NFQueue.cpp: which calls of the kernel's
-- libraries they make. Whether a call fails, with what `errno`, is a parameter.
pub mod Balance
use packet_inspector.Base.{
  ℕ, Bool, true, false, ◌&&◌, Option, none, some, List, [], ◌∷◌, ◌++◌, not, if◌then◌else◌,
}

-- The calls, in the order of the source; `destroy_queue` and `close_socket` undo `create_queue` and
-- `open_socket`.
pub data NfqCall : Type 0 where
  open_socket bind_pf create_queue set_mode set_maxlen force_rcvbuf set_rcvbuf : NfqCall
  no_enobufs destroy_queue close_socket : NfqCall

-- The `errno` of each call that can make the constructor throw, where it fails, and whether
-- `SO_RCVBUFFORCE` is refused.
pub record Answers : Type 0 where
  pub on_open : Option ℕ
  pub on_bind : Option ℕ
  pub on_create : Option ℕ
  pub on_mode : Option ℕ
  pub force_refused : Bool

-- `_h` and `_qh`: which of them is not null.
pub record Handles : Type 0 where
  pub has_socket : Bool
  pub has_queue : Bool

abbrev pub no_handles : Handles
no_handles = record { has_socket = false; has_queue = false }

-- The object, or a `system_error` with the call that failed and its `errno`; with the calls made.
pub data SetupResult : Type 0 where
  bound : Handles → List NfqCall → SetupResult
  threw : NfqCall → ℕ → List NfqCall → SetupResult

-- `bail`
unfoldable pub bail : NfqCall → ℕ → Handles → List NfqCall → SetupResult
bail what err h made =
    threw what err
      (made ++ (if h.has_queue then destroy_queue ∷ close_socket ∷ [] else close_socket ∷ []))

-- From `nfq_set_queue_maxlen` on.
unfoldable pub set_options : Bool → List NfqCall → List NfqCall
set_options force_refused made =
    made
    ++ set_maxlen
      ∷ force_rcvbuf
      ∷ (if force_refused then set_rcvbuf ∷ no_enobufs ∷ [] else no_enobufs ∷ [])

unfoldable pub copy_packets : Answers → Handles → List NfqCall → SetupResult
copy_packets a h made =
    let made' = made ++ set_mode ∷ [] in
    elim a.on_mode [
      | some err ↦ bail set_mode err h made'
      | none ↦ bound h (set_options a.force_refused made')
    ]

unfoldable pub claim_queue : Answers → Handles → List NfqCall → SetupResult
claim_queue a h made =
    let made' = made ++ create_queue ∷ [] in
    elim a.on_create [
      | some err ↦ bail create_queue err h made'
      | none ↦ copy_packets a (record h { has_queue = true }) made'
    ]

unfoldable pub bind_family : Answers → Handles → List NfqCall → SetupResult
bind_family a h made =
    let made' = made ++ bind_pf ∷ [] in
    elim a.on_bind [ some err ↦ bail bind_pf err h made' | none ↦ claim_queue a h made' ]

-- The constructor.
unfoldable pub open_queue : Answers → SetupResult
open_queue a = elim a.on_open [
  | some err ↦ threw open_socket err (open_socket ∷ [])
  | none ↦ bind_family a (record { has_socket = true; has_queue = false }) (open_socket ∷ [])
]

-- The destructor.
unfoldable pub close_queue : Handles → List NfqCall
close_queue h =
    (if h.has_queue then destroy_queue ∷ [] else [])
    ++ (if h.has_socket then close_socket ∷ [] else [])
