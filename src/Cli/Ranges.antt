-- ===== src/Cli/Ranges.antt =====
-- The ranges of a configuration's fields, and the options that write to them.
use packet_inspector.Base.{
  ℕ, ◌%◌, ◌^◌, ◌≤◌, ◌<◌, ◌==◌, ◌||◌, not, ◌≡◌, refl, subst, inl, inr, none, some, arith, ltb,
  Bool-cases, Option-cases, Bytes, length,
}
use packet_inspector.Cli.{
  Config, default_config, Number, Setting, jobs_of, queue_of, size_of, max_blocked_of, pin_of,
  stride_of, rcvbuf_of, path_of, stats_of, parse_uint, assign,
}

-- The ranges of the fields.
pub record InRange (c : Config) : Type 0 where
  pub some_job : 0 < c.jobs
  pub few_jobs : c.jobs ≤ 4096
  pub queue_fits : c.queue_num < 65536
  pub some_depth : 0 < c.queue_maxlen
  pub depth_fits : c.queue_maxlen < 2 ^ 32
  pub some_buffer : 0 < c.recv_buf_bytes
  pub buffer_fits : c.recv_buf_bytes < 2 ^ 31

pub default_config-InRange : InRange default_config
default_config-InRange = record {
  some_job = omega arith;
  few_jobs = omega arith;
  queue_fits = omega arith;
  some_depth = omega arith;
  depth_fits = omega arith;
  some_buffer = omega arith;
  buffer_fits = omega arith;
}

module _ (strtoull : Bytes → Number) where
  parse_uint-le :
      (v : Bytes) (lo hi n : ℕ) → parse_uint strtoull v lo hi ≡ some n → (lo ≤ n) × (n ≤ hi)
  unfolding parse_uint
  parse_uint-le v lo hi n e =
      let number = strtoull v in
      elim (Bool-cases (
        length v == 0
        || (number.failed
            || number.used == 0
            || not (number.used == length v)
            || ltb number.value lo
            || ltb hi number.value))) [
              | inl refused ↦ cc (rw refused at e)
              | inr fits ↦
                  let same : number.value ≡ n = cc (rw fits at e) in ground (arith, fits, same)
            ]

  -- A number that is read is in the range that was asked for.
  read_number :
      {A : Type 0} (v : Bytes) (lo hi : ℕ) (f : ℕ → A) {a : A}
      → (elim (parse_uint strtoull v lo hi) [ none ↦ none | some n ↦ some (f n) ]) ≡ some a
      → (n : ℕ) × (lo ≤ n) × (n ≤ hi) × (f n ≡ a)
  read_number v lo hi f e = elim (Option-cases (parse_uint strtoull v lo hi)) [
    | inl refused ↦ cc (rw refused at e)
    | inr (n, there) ↦
        let (low, high) = parse_uint-le v lo hi n there in (n, low, high, cc (rw there at e))
  ]

  -- Fields that have no range do not matter.
  pub same-InRange :
      (c c' : Config)
      → c.jobs ≡ c'.jobs
      → c.queue_num ≡ c'.queue_num
      → c.queue_maxlen ≡ c'.queue_maxlen
      → c.recv_buf_bytes ≡ c'.recv_buf_bytes
      → InRange c
      → InRange c'
  same-InRange c c' a b d e t = record {
    some_job = omega (arith, t.some_job);
    few_jobs = omega (arith, t.few_jobs);
    queue_fits = omega (arith, t.queue_fits);
    some_depth = omega (arith, t.some_depth);
    depth_fits = omega (arith, t.depth_fits);
    some_buffer = omega (arith, t.some_buffer);
    buffer_fits = omega (arith, t.buffer_fits);
  }

  pub assign-InRange :
      (s : Setting) (v : Bytes) (c c' : Config)
      → InRange c
      → assign strtoull s v c ≡ some c'
      → InRange c'
  unfolding assign
  assign-InRange jobs_of v c c' t e =
      let (n, low, high, is) = read_number v 1 4096 (λ n. record c { jobs = n }) e in
      subst InRange is (record {
        some_job = omega (arith, low, high);
        few_jobs = omega (arith, low, high);
        queue_fits = t.queue_fits;
        some_depth = t.some_depth;
        depth_fits = t.depth_fits;
        some_buffer = t.some_buffer;
        buffer_fits = t.buffer_fits;
      })
  assign-InRange queue_of v c c' t e =
      let (n, low, high, is) = read_number v 0 65535 (λ n. record c { queue_num = n % 2 ^ 16 }) e in
      subst InRange is (record {
        some_job = t.some_job;
        few_jobs = t.few_jobs;
        queue_fits = omega (arith, low, high);
        some_depth = t.some_depth;
        depth_fits = t.depth_fits;
        some_buffer = t.some_buffer;
        buffer_fits = t.buffer_fits;
      })
  assign-InRange size_of v c c' t e =
      let (n, low, high, is) =
        read_number v 1 4294967295 (λ n. record c { queue_maxlen = n % 2 ^ 32 }) e in
      subst InRange is (record {
        some_job = t.some_job;
        few_jobs = t.few_jobs;
        queue_fits = t.queue_fits;
        some_depth = omega (arith, low, high);
        depth_fits = omega (arith, low, high);
        some_buffer = t.some_buffer;
        buffer_fits = t.buffer_fits;
      })
  assign-InRange max_blocked_of v c c' t e =
      let (n, low, high, is) =
        read_number v 1 4294967295 (λ n. record c { max_blocked_flows = n }) e in
      subst InRange is (same-InRange c (record c { max_blocked_flows = n }) refl refl refl refl t)
  assign-InRange pin_of v c c' t e =
      let (n, low, high, is) = read_number v 0 4095 (λ n. record c { pin_first_cpu = some n }) e in
      subst InRange is (same-InRange c (record c { pin_first_cpu = some n }) refl refl refl refl t)
  assign-InRange stride_of v c c' t e =
      let (n, low, high, is) = read_number v 1 64 (λ n. record c { pin_stride = n }) e in
      subst InRange is (same-InRange c (record c { pin_stride = n }) refl refl refl refl t)
  assign-InRange rcvbuf_of v c c' t e =
      let (n, low, high, is) =
        read_number v 1 2147483647 (λ n. record c { recv_buf_bytes = n }) e in
      subst InRange is (record {
        some_job = t.some_job;
        few_jobs = t.few_jobs;
        queue_fits = t.queue_fits;
        some_depth = t.some_depth;
        depth_fits = t.depth_fits;
        some_buffer = omega (arith, low, high);
        buffer_fits = omega (arith, low, high);
      })
  assign-InRange path_of v c c' t e =
      let is : record c { blocklist_path = v } ≡ c' = cc in
      subst InRange is (same-InRange c (record c { blocklist_path = v }) refl refl refl refl t)
  assign-InRange stats_of v c c' t e =
      let (n, low, high, is) = read_number v 0 86400 (λ n. record c { stats_interval_s = n }) e in
      subst InRange is (same-InRange c (record c { stats_interval_s = n }) refl refl refl refl t)
