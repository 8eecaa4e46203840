-- ===== src/Cli/Accepted.antt =====
-- The configurations that `parse` of src/cli.cpp lets the program run with.
use packet_inspector.Base.{
  ◌+◌, ◌-◌, ◌≤◌, ◌≡◌, refl, inl, inr, true, false, Option, none, some, List, [], ◌∷◌, arith, ltb,
  Bool-cases, Option-cases, lt→ltb, le_of_ltb, Bytes,
}
use packet_inspector.Cli.{
  Config, default_config, worker_count, last_queue, last_queue_num, ParseResult, Number, Setting,
  Flag, asks_help, asks_verbose, asks_passthrough, unknown, positional, sets, flag_of, check_queues,
  assign, parse_args, parse,
}
use packet_inspector.Cli.Ranges.{InRange, default_config-InRange, same-InRange, assign-InRange}

pub last_queue_lem : (c : Config) → InRange c → last_queue c ≡ c.queue_num + c.jobs - 1
unfolding last_queue worker_count
last_queue_lem c t =
    rw (lt→ltb 0 c.jobs t.some_job) (omega (arith, t.few_jobs, t.queue_fits, t.some_job))

last_queue_num_lem :
    (c : Config)
    → InRange c
    → c.queue_num + c.jobs ≤ 65536
    → last_queue_num c + 1 ≡ c.queue_num + worker_count c
unfolding last_queue_num worker_count
last_queue_num_lem c t fits =
    rw (last_queue_lem c t, lt→ltb 0 c.jobs t.some_job) (omega (arith, fits, t.some_job))

-- What a result that lets the program run has to be.
abbrev IsReady : ParseResult → Type 0
IsReady r = InRange r.config × (r.config.queue_num + r.config.jobs ≤ 65536)

check_queues-IsReady :
    (c : Config) → InRange c → (check_queues c).should_exit ≡ false → IsReady (check_queues c)
unfolding check_queues
check_queues-IsReady c t h = elim (Bool-cases (ltb 65535 (last_queue c))) [
  | inl beyond ↦ cc
  | inr fits ↦ rw fits (t, omega (arith, last_queue_lem c t, le_of_ltb _ _ fits, t.some_job))
]

module _ (strtoull : Bytes → Number) where
  -- An argument where an option may come, given what holds of the arguments behind it.
  by_flag :
      (flag : Flag) (arg : Bytes) (args : List Bytes) (c : Config)
      → flag_of arg ≡ flag
      → ((expected : Option Setting) (c' : Config)
          → InRange c'
          → (parse_args strtoull expected args c').should_exit ≡ false
          → IsReady (parse_args strtoull expected args c'))
      → InRange c
      → (parse_args strtoull none (arg ∷ args) c).should_exit ≡ false
      → IsReady (parse_args strtoull none (arg ∷ args) c)
  unfolding parse_args
  by_flag asks_help arg args c is again t h = cc (rw (parse_args, is) at h)
  by_flag unknown arg args c is again t h = cc (rw (parse_args, is) at h)
  by_flag asks_verbose arg args c is again t h =
      let c' = record c { verbose = true } in
      rw (parse_args, is)
        (again none c' (same-InRange strtoull c c' refl refl refl refl t)
          (rw (parse_args, is) at h))
  by_flag asks_passthrough arg args c is again t h =
      let c' = record c { passthrough = true } in
      rw (parse_args, is)
        (again none c' (same-InRange strtoull c c' refl refl refl refl t)
          (rw (parse_args, is) at h))
  by_flag positional arg args c is again t h =
      let c' = record c { blocklist_path = arg } in
      rw (parse_args, is)
        (again none c' (same-InRange strtoull c c' refl refl refl refl t)
          (rw (parse_args, is) at h))
  by_flag (sets s) arg args c is again t h =
      rw (parse_args, is) (again (some s) c t (rw (parse_args, is) at h))

  parse_args-IsReady :
      (expected : Option Setting) (args : List Bytes) (c : Config)
      → InRange c
      → (parse_args strtoull expected args c).should_exit ≡ false
      → IsReady (parse_args strtoull expected args c)
  unfolding parse_args
  parse_args-IsReady none [] c t h = check_queues-IsReady c t h
  parse_args-IsReady (some s) [] c t h = cc
  parse_args-IsReady (some s) (v ∷ args) c t h = elim (Option-cases (assign strtoull s v c)) [
    | inl refused ↦ cc (rw (parse_args, refused) at h)
    | inr (c', there) ↦
        rw (parse_args, there)
          (parse_args-IsReady none args c' (assign-InRange strtoull s v c c' t there)
            (rw (parse_args, there) at h))
  ]
  parse_args-IsReady none (arg ∷ args) c t h =
      by_flag (flag_of arg) arg args c refl
        (λ expected c' t' h'. parse_args-IsReady expected args c' t' h') t h

-- Whatever the arguments are, and whatever `strtoull` makes of them: if `parse` does not ask to exit,
-- jobs, queue number, queue depth and buffer size are in range, and the last of the queue numbers that
-- the workers bind is `last_queue_num`, without wrap-around.
pub parse-InRange :
    (strtoull : Bytes → Number) (args : List Bytes)
    → (parse strtoull args).should_exit ≡ false
    → InRange (parse strtoull args).config
      × (last_queue_num (parse strtoull args).config + 1
          ≡ (parse strtoull args).config.queue_num + worker_count (parse strtoull args).config)
unfolding parse
parse-InRange strtoull args h =
    let (t, fits) = parse_args-IsReady strtoull none args default_config default_config-InRange h in
    (t, last_queue_num_lem _ t fits)
