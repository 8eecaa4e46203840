-- ===== src/Cli/Rendered.antt =====
-- The arguments that a configuration can be written as, and what `parse` of src/cli.cpp makes of them.
use packet_inspector.Base.{
  ℕ, ◌+◌, ◌%◌, ◌^◌, ◌≤◌, ◌<◌, ◌≡◌, refl, ◌∙◌, inl, inr, Bool, true, false, Option, none, some, List,
  [], ◌∷◌, ◌++◌, arith, ltb, ltb-eq-false, ◌==◌, if◌then◌else◌, Bool-cases, Bytes,
}
use packet_inspector.Cli.{
  Config, default_config, last_queue, Number, jobs_of, queue_of, size_of, max_blocked_of, pin_of,
  stride_of, rcvbuf_of, path_of, stats_of, flag_of, check_queues, assign, parse_args, parse,
}
use packet_inspector.Cli.Options.{
  flag_j, flag_nfq, flag_nfq_size, flag_max_blocked, flag_pin, flag_pin_stride, flag_rcvbuf, flag_b,
  flag_v, flag_passthrough, flag_stats,
}
use packet_inspector.Cli.Ranges.{InRange}
use packet_inspector.Cli.Accepted.{last_queue_lem}
use packet_inspector.Cli.Values.{IsReadBack, parse_uint-written, option-step, number-step}

module _ (written : ℕ → Bytes) where
  abbrev pub blocked_args : ℕ → List Bytes
  blocked_args n = if n == 0 then [] else flag_max_blocked ∷ written n ∷ []

  abbrev pub pin_args : Option ℕ → List Bytes
  pin_args none = []
  pin_args (some cpu) = flag_pin ∷ written cpu ∷ []

  -- The options in some order, each with its number written.
  abbrev pub render : Config → List Bytes
  render c =
      blocked_args c.max_blocked_flows
      ++ (pin_args c.pin_first_cpu
          ++ ((if c.verbose then flag_v ∷ [] else [])
              ++ ((if c.passthrough then flag_passthrough ∷ [] else [])
                  ++ (flag_j
                      ∷ written c.jobs
                      ∷ flag_nfq
                      ∷ written c.queue_num
                      ∷ flag_nfq_size
                      ∷ written c.queue_maxlen
                      ∷ flag_pin_stride
                      ∷ written c.pin_stride
                      ∷ flag_rcvbuf
                      ∷ written c.recv_buf_bytes
                      ∷ flag_stats
                      ∷ written c.stats_interval_s
                      ∷ flag_b
                      ∷ c.blocklist_path
                      ∷ []))))

-- The numbers that `parse` takes, and that a 64-bit `size_t` and an `int` hold.
pub record IsWritable (c : Config) : Type 0 where
  pub in_range : InRange c
  pub queues_fit : c.queue_num + c.jobs ≤ 65536
  pub few_blocked : c.max_blocked_flows < 4294967296
  pub pin_fits : (i : ℕ) → c.pin_first_cpu ≡ some i → i ≤ 4095
  pub small_stride : c.pin_stride ≤ 64
  pub some_stride : 1 ≤ c.pin_stride
  pub short_interval : c.stats_interval_s ≤ 86400

module _ (strtoull : Bytes → Number) (written : ℕ → Bytes)
    (back : IsReadBack strtoull written) where
  blocked-step :
      (n : ℕ) (rest : List Bytes)
      → n < 4294967296
      → parse_args strtoull none (blocked_args written n ++ rest) default_config
        ≡ parse_args strtoull none rest (record default_config { max_blocked_flows = n })
  unfolding assign flag_of packet_inspector.BlockList.same
  blocked-step n rest small = elim (Bool-cases (n == 0)) [
    | inl zero_is ↦ let same : n ≡ 0 = ground arith in rw same refl
    | inr some_is ↦ rw some_is (
        option-step strtoull written back flag_max_blocked max_blocked_of (written n) rest
          default_config _ refl
          (rw
            (
              assign,
              parse_uint-written strtoull written back n 1 4294967295 (ground arith)
                  (omega (arith, small)) (omega arith),
            )
            refl))
  ]

  pin-step :
      (cpu : Option ℕ) (n : ℕ) (rest : List Bytes)
      → ((i : ℕ) → cpu ≡ some i → i ≤ 4095)
      → parse_args strtoull none
          (pin_args written cpu ++ rest)
          (record default_config { max_blocked_flows = n })
        ≡ parse_args strtoull none rest
            (record default_config { max_blocked_flows = n; pin_first_cpu = cpu })
  unfolding assign flag_of packet_inspector.BlockList.same
  pin-step none n rest inside = refl
  pin-step (some cpu) n rest inside =
      option-step strtoull written back flag_pin pin_of (written cpu) rest _ _ refl (
        rw
          (
            assign,
            parse_uint-written strtoull written back cpu 0 4095 (omega arith) (inside cpu refl)
                (omega arith),
          )
          refl)

  verbose-step :
      (b : Bool) (n : ℕ) (cpu : Option ℕ) (rest : List Bytes)
      → parse_args strtoull none
          ((if b then flag_v ∷ [] else []) ++ rest)
          (record default_config { max_blocked_flows = n; pin_first_cpu = cpu })
        ≡ parse_args strtoull none rest
            (record default_config { max_blocked_flows = n; pin_first_cpu = cpu; verbose = b })
  unfolding parse_args flag_of packet_inspector.BlockList.same
  verbose-step true n cpu rest = refl
  verbose-step false n cpu rest = refl

  -- The configuration behind the options that may be left out.
  abbrev optional : Config → Config
  optional c = record default_config {
    max_blocked_flows = c.max_blocked_flows;
    pin_first_cpu = c.pin_first_cpu;
    verbose = c.verbose;
    passthrough = c.passthrough;
  }

  passthrough-step :
      (b : Bool) (c : Config) (rest : List Bytes)
      → parse_args strtoull none
          ((if b then flag_passthrough ∷ [] else []) ++ rest)
          (optional (record c { passthrough = false }))
        ≡ parse_args strtoull none rest (optional (record c { passthrough = b }))
  unfolding parse_args flag_of packet_inspector.BlockList.same
  passthrough-step true c rest = refl
  passthrough-step false c rest = refl

  check_queues-fits :
      (c : Config)
      → IsWritable c
      → check_queues c ≡ record { config = c; should_exit = false; exit_code = 0 }
  unfolding check_queues
  check_queues-fits c w =
      let last = last_queue_lem c w.in_range in
      let fits : ltb 65535 (last_queue c) ≡ false =
        ltb-eq-false 65535 (last_queue c) (omega (arith, last, w.queues_fit)) in
      rw (check_queues, fits) refl

  -- For a configuration whose numbers are in the ranges that the program takes, written as digits that
  -- `strtoull` reads back: `parse` makes of its options the configuration itself, and lets the program
  -- run.
  pub parse-render :
      (c : Config)
      → IsWritable c
      → parse strtoull (render written c)
        ≡ record { config = c; should_exit = false; exit_code = 0 }
  unfolding parse assign parse_args flag_of packet_inspector.BlockList.same
  parse-render c w =
      let t = w.in_range in
      let c0 = optional c in
      let c1 = record c0 { jobs = c.jobs } in
      let c2 = record c1 { queue_num = c.queue_num } in
      let c3 = record c2 { queue_maxlen = c.queue_maxlen } in
      let c4 = record c3 { pin_stride = c.pin_stride } in
      let c5 = record c4 { recv_buf_bytes = c.recv_buf_bytes } in
      let c6 = record c5 { stats_interval_s = c.stats_interval_s } in
      let number : c.queue_num % 2 ^ 16 ≡ c.queue_num = omega (arith, t.queue_fits) in
      let depth : c.queue_maxlen % 2 ^ 32 ≡ c.queue_maxlen = omega (arith, t.depth_fits) in
      let r6 : List Bytes = flag_b ∷ c.blocklist_path ∷ [] in
      let r5 : List Bytes = flag_stats ∷ written c.stats_interval_s ∷ r6 in
      let r4 : List Bytes = flag_rcvbuf ∷ written c.recv_buf_bytes ∷ r5 in
      let r3 : List Bytes = flag_pin_stride ∷ written c.pin_stride ∷ r4 in
      let r2 : List Bytes = flag_nfq_size ∷ written c.queue_maxlen ∷ r3 in
      let r1 : List Bytes = flag_nfq ∷ written c.queue_num ∷ r2 in
      let r0 : List Bytes = flag_j ∷ written c.jobs ∷ r1 in
      let through : List Bytes = (if c.passthrough then flag_passthrough ∷ [] else []) ++ r0 in
      let wordy : List Bytes = (if c.verbose then flag_v ∷ [] else []) ++ through in
      let pinned : List Bytes = pin_args written c.pin_first_cpu ++ wordy in
      blocked-step c.max_blocked_flows pinned w.few_blocked
      ∙ pin-step c.pin_first_cpu c.max_blocked_flows wordy w.pin_fits
      ∙ verbose-step c.verbose c.max_blocked_flows c.pin_first_cpu through
      ∙ passthrough-step c.passthrough c r0
      ∙ number-step strtoull written back flag_j jobs_of c.jobs 1 4096 r1 c0 c1 refl t.some_job
          t.few_jobs (omega arith) (λ read. rw (assign, read) refl)
      ∙ number-step strtoull written back flag_nfq queue_of c.queue_num 0 65535 r2 c1 c2 refl
          (omega arith) (omega (arith, t.queue_fits)) (omega arith)
          (λ read. rw (assign, read, number) refl)
      ∙ number-step strtoull written back flag_nfq_size size_of c.queue_maxlen 1 4294967295 r3 c2 c3
          refl t.some_depth (omega (arith, t.depth_fits)) (omega arith)
          (λ read. rw (assign, read, depth) refl)
      ∙ number-step strtoull written back flag_pin_stride stride_of c.pin_stride 1 64 r4 c3 c4 refl
          w.some_stride w.small_stride (omega arith) (λ read. rw (assign, read) refl)
      ∙ number-step strtoull written back flag_rcvbuf rcvbuf_of c.recv_buf_bytes 1 2147483647 r5 c4
          c5 refl t.some_buffer (omega (arith, t.buffer_fits)) (omega arith)
          (λ read. rw (assign, read) refl)
      ∙ number-step strtoull written back flag_stats stats_of c.stats_interval_s 0 86400 r6 c5 c6
          refl (omega arith) w.short_interval (omega arith) (λ read. rw (assign, read) refl)
      ∙ option-step strtoull written back flag_b path_of c.blocklist_path [] c6 c refl refl
      ∙ check_queues-fits c w
