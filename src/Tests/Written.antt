-- ===== src/Tests/Written.antt =====
-- Numbers written in decimal, and the options of a configuration that has most of them.
use packet_inspector.Base.{
  ℕ, zero, suc, ◌+◌, ◌*◌, ◌-◌, ◌/◌, ◌%◌, ◌<◌, ◌≡◌, refl, inl, inr, true, false, some, [], ◌∷◌, ◌++◌,
  arith, ltb, Bool-cases, if◌then◌else◌, Bytes, length,
}
use packet_inspector.Cli.{Config, default_config, parse}
use packet_inspector.Cli.Values.{IsReadBack}
use packet_inspector.Cli.Rendered.{render, IsWritable, parse-render}
use packet_inspector.Tests.Arguments.{digits, decimal}

-- At most so many digits of a number.
abbrev decimal_of : ℕ → ℕ → Bytes
decimal_of zero n = []
decimal_of (suc places) n =
    (if ltb n 10 then [] else decimal_of places (n / 10)) ++ ((48 + n % 10) ∷ [])

abbrev past : ℕ → ℕ
past zero = 1
past (suc places) = past places * 10

digits-++ : (s : Bytes) (c acc : ℕ) → digits (s ++ (c ∷ [])) acc ≡ digits s acc * 10 + (c - 48)
digits-++ [] c acc = refl
digits-++ (b ∷ s) c acc = digits-++ s c (acc * 10 + (b - 48))

digits-decimal_of : (places n : ℕ) → n < past places → digits (decimal_of places n) 0 ≡ n
digits-decimal_of zero n small = omega (arith, small)
digits-decimal_of (suc places) n small = elim (Bool-cases (ltb n 10)) [
  | inl one_digit ↦ rw one_digit (ground arith)
  | inr longer ↦
      let upper : digits (decimal_of places (n / 10)) 0 ≡ n / 10 =
        digits-decimal_of places (n / 10) (omega (arith, small)) in
      rw (longer, digits-++ (decimal_of places (n / 10)) (48 + n % 10) 0, upper) (omega arith)
]

abbrev written : ℕ → Bytes
written n = decimal_of 10 n

length-++_one : (s : Bytes) (c : ℕ) → 0 < length (s ++ (c ∷ []))
length-++_one [] c = omega arith
length-++_one (b ∷ s) c = omega arith

decimal-written :
    (n : ℕ)
    → n < 4294967296
    → decimal (written n) ≡ record { value = n; failed = false; used = length (written n) }
decimal-written n small = rw (digits-decimal_of 10 n (omega (arith, small))) refl

decimal-IsReadBack : IsReadBack decimal written
decimal-IsReadBack = record {
  reads = decimal-written;
  some_digit = λ n. length-++_one (if ltb n 10 then [] else decimal_of 9 (n / 10)) (48 + n % 10);
}

abbrev three_workers : Config
three_workers = record default_config {
  jobs = 3;
  queue_num = 120;
  pin_first_cpu = some 2;
  max_blocked_flows = 65536;
  verbose = true;
}

three_workers-IsWritable : IsWritable three_workers
three_workers-IsWritable = record {
  in_range = record {
    some_job = omega arith;
    few_jobs = omega arith;
    queue_fits = omega arith;
    some_depth = omega arith;
    depth_fits = omega arith;
    some_buffer = omega arith;
    buffer_fits = omega arith;
  };
  queues_fit = omega arith;
  few_blocked = omega arith;
  pin_fits = λ i is. grind (arith, is);
  small_stride = omega arith;
  some_stride = omega arith;
  short_interval = omega arith;
}

parse-render_example :
    parse decimal (render written three_workers)
    ≡ record { config = three_workers; should_exit = false; exit_code = 0 }
parse-render_example =
    parse-render decimal written decimal-IsReadBack three_workers three_workers-IsWritable
