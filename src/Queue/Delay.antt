-- ===== src/Queue/Delay.antt =====
-- `retryJitter` and `retryDelayMs` of packages/queue/src/worker.ts. A 32-bit hash is its bit pattern. A
-- jitter is a count of `jitter_unit`s, of which `jitter_units` make 1; the delay is computed exactly,
-- where the code computes with doubles.
use Prim.Native.Nat.{bit_xor}
use jaa.Prelude.{
  ℕ, ◌+◌, ◌-◌, ◌*◌, ◌/◌, ◌%◌, ◌^◌, min, max, String, Option, none, some, [], ◌∷◌, ◌++◌, Number,
  positive,
}
use jaa.Prelude.Units.{Units, units, to_radix}

abbrev pub max_retry_delay_ms : ℕ
max_retry_delay_ms = 86400000

-- Two for each value of the hash above 0, so that 1/2 is a whole number of units.
abbrev pub jitter_units : ℕ
jitter_units = 8589934590

-- `hash ^= input.charCodeAt(index)` and `Math.imul(hash, 16_777_619)`.
abbrev pub hash_unit : ℕ → ℕ → ℕ
hash_unit hash c = bit_xor hash c * 16777619 % 2 ^ 32

unfoldable pub hash_units : ℕ → Units → ℕ
hash_units hash [] = hash
hash_units hash (c ∷ cs) = hash_units (hash_unit hash c) cs

-- `(hash >>> 0) / 0xffff_ffff`, in jitter units.
unfoldable pub retry_jitter : String → ℕ → ℕ
retry_jitter automation_job_id attempt =
    2 * hash_units 2166136261 (units automation_job_id ++ (58 ∷ to_radix 10 attempt))

-- A jitter that is given, or none where it is not finite: then 0.5.
abbrev pub bounded_jitter : Option ℕ → ℕ
bounded_jitter none = 4294967295
bounded_jitter (some jitter) = min jitter_units jitter

unfoldable pub exponential : ℕ → ℕ → ℕ
exponential attempt base_ms = min max_retry_delay_ms (base_ms * 2 ^ min 30 (attempt - 1))

-- `Math.round(exponential * (0.75 + jitter * 0.5))`.
unfoldable pub scaled : ℕ → ℕ → ℕ
scaled amount jitter =
    (amount * (3 * jitter_units + 2 * jitter) + 2 * jitter_units) / (4 * jitter_units)

abbrev pub delay_of : ℕ → ℕ → Option ℕ → ℕ
delay_of attempt base_ms jitter =
    min max_retry_delay_ms (max 1 (scaled (exponential attempt base_ms) (bounded_jitter jitter)))

abbrev pub delay_of_checked : Option ℕ → Option ℕ → Option ℕ → Option ℕ
delay_of_checked (some attempt) (some base_ms) jitter = some (delay_of attempt base_ms jitter)
delay_of_checked _ _ jitter = none

-- `none` where it throws. A negative jitter is 0.
unfoldable pub retry_delay_ms : Number → Number → Option ℕ → Option ℕ
retry_delay_ms attempt base_ms jitter =
    delay_of_checked (positive attempt) (positive base_ms) jitter
