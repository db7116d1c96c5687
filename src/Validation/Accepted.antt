-- ===== src/Validation/Accepted.antt =====
-- What the validators let through.
use scopecache.Prelude.{ℕ, ◌-◌, ◌*◌, ◌/◌, ◌^◌, ◌≤◌, ◌<◌, arith, if_intro, option_intro}
use scopecache.Word.{half, slt, sle}
use scopecache.Decimal.{parse_int}
use scopecache.Decimal.Bounds.{parse_int-word}
use scopecache.Item.{Bytes, is_empty}
use scopecache.Validation.{
  Parsed, parsed, refused, normalize_limit, normalize_hours, max_limit, us_per_hour,
}

-- A bound on the number that was read; a refusal has none.
abbrev pub Holds : (ℕ → Type 0) → Parsed → Type 0
Holds P (parsed n) = P n
Holds P (refused r) = Unit

-- A limit that normalizeLimit accepts is at least 1 and at most 10000.
pub normalize_limit-Bounds :
    (raw : Bytes) → Holds (λ n. (1 ≤ n) × (n ≤ max_limit)) (normalize_limit raw)
unfolding normalize_limit
normalize_limit-Bounds raw =
    if_intro (Holds (λ n. (1 ≤ n) × (n ≤ max_limit))) (is_empty raw)
      (λ _. (omega arith, omega arith))
      (λ _.
        option_intro (Holds (λ n. (1 ≤ n) × (n ≤ max_limit))) (parse_int raw) (λ _. tt)
          (λ n e.
            let below = parse_int-word raw n e in
            if_intro (Holds (λ n. (1 ≤ n) × (n ≤ max_limit))) (sle n 0) (λ _. tt)
              (λ positive.
                if_intro (Holds (λ n. (1 ≤ n) × (n ≤ max_limit))) (slt max_limit n)
                  (λ _. (omega arith, omega arith)) (λ small. (ground arith, ground arith)))))

-- A number of hours that normalizeHours accepts is less than 2 ^ 63 as microseconds, so that the
-- conversion does not overflow.
pub normalize_hours-Bounds :
    (raw : Bytes) → Holds (λ n. n * us_per_hour < half) (normalize_hours raw)
unfolding normalize_hours
normalize_hours-Bounds raw =
    if_intro (Holds (λ n. n * us_per_hour < half)) (is_empty raw) (λ _. omega arith)
      (λ _.
        option_intro (Holds (λ n. n * us_per_hour < half)) (parse_int raw) (λ _. tt)
          (λ n e.
            let below = parse_int-word raw n e in
            if_intro (Holds (λ n. n * us_per_hour < half)) (slt n 0) (λ _. tt)
              (λ nonneg.
                if_intro (Holds (λ n. n * us_per_hour < half)) (slt ((2 ^ 63 - 1) / us_per_hour) n)
                  (λ _. tt) (λ few. ground arith))))
