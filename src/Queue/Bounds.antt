-- ===== src/Queue/Bounds.antt =====
-- The delay before a retry.
use jaa.Prelude.{
  ℕ, zero, suc, ◌+◌, ◌-◌, ◌*◌, ◌^◌, ◌≤◌, min, sym, Option, none, some, ◌≡◌, refl, arith, positive,
  positive-pos, nat,
}
use native.Mathlib.Nat.{pow-le-pow_right}
use jaa.Queue.Delay.{
  max_retry_delay_ms, jitter_units, bounded_jitter, exponential, scaled, delay_of, delay_of_checked,
  retry_delay_ms,
}

product :
    (amount jitter : ℕ)
    → amount * (3 * jitter_units + 2 * jitter) ≡ 3 * jitter_units * amount + 2 * (amount * jitter)
product amount jitter = grind arith

product_le : (amount jitter : ℕ) → jitter ≤ jitter_units → amount * jitter ≤ jitter_units * amount
product_le amount jitter h = grind arith

scaled_lem :
    (amount jitter : ℕ)
    → jitter ≤ jitter_units
    → (3 * amount ≤ 4 * scaled amount jitter + 2) × (4 * scaled amount jitter ≤ 5 * amount + 2)
unfolding scaled
scaled_lem amount jitter h = omega (arith, product amount jitter, product_le amount jitter h)

product_mono : (a b jitter : ℕ) → a ≤ b → a * jitter ≤ b * jitter
product_mono a b jitter h = grind arith

scaled_mono : (a b jitter : ℕ) → a ≤ b → scaled a jitter ≤ scaled b jitter
unfolding scaled
scaled_mono a b jitter h =
    omega (arith, product a jitter, product b jitter, product_mono a b jitter h)

factor_mono : (a m n : ℕ) → m ≤ n → a * m ≤ a * n
factor_mono a m n h = grind arith

product_pos : (a b : ℕ) → 1 ≤ a → 1 ≤ b → 1 ≤ a * b
product_pos a b h k = grind arith

two_power : (m n : ℕ) → m ≤ n → 2 ^ m ≤ 2 ^ n
two_power m n h = pow-le-pow_right (omega arith) h

exponential_mono : (a b base_ms : ℕ) → a ≤ b → exponential a base_ms ≤ exponential b base_ms
unfolding exponential
exponential_mono a b base_ms h = omega (
  arith,
  factor_mono base_ms (2 ^ min 30 (a - 1)) (2 ^ min 30 (b - 1))
      (two_power (min 30 (a - 1)) (min 30 (b - 1)) (omega arith)),
)

exponential_le : (attempt base_ms : ℕ) → exponential attempt base_ms ≤ max_retry_delay_ms
unfolding exponential
exponential_le attempt base_ms = omega arith

exponential_pos : (attempt base_ms : ℕ) → 1 ≤ base_ms → 1 ≤ exponential attempt base_ms
unfolding exponential
exponential_pos attempt base_ms h = omega (
  arith,
  product_pos base_ms (2 ^ min 30 (attempt - 1)) h
      (two_power 0 (min 30 (attempt - 1)) (omega arith)),
)

bounded_jitter_le : (jitter : Option ℕ) → bounded_jitter jitter ≤ jitter_units
bounded_jitter_le none = omega arith
bounded_jitter_le (some jitter) = omega arith

-- The delay of an attempt and a base that pass the checks, and that of a later attempt.
delay_of_lem :
    (m n base_ms : ℕ) (jitter : Option ℕ)
    → m ≤ n
    → 1 ≤ base_ms
    → (1 ≤ delay_of m base_ms jitter)
      × (delay_of m base_ms jitter ≤ max_retry_delay_ms)
      × (3 * exponential m base_ms ≤ 4 * delay_of m base_ms jitter + 2)
      × (4 * delay_of m base_ms jitter ≤ 5 * exponential m base_ms + 2)
      × (delay_of m base_ms jitter ≤ delay_of n base_ms jitter)
delay_of_lem m n base_ms jitter h k =
    let j = bounded_jitter jitter in
    let (low, high) = scaled_lem (exponential m base_ms) j (bounded_jitter_le jitter) in
    omega (
      arith,
      low,
      high,
      exponential_pos m base_ms k,
      exponential_le m base_ms,
      scaled_mono (exponential m base_ms) (exponential n base_ms) j
          (exponential_mono m n base_ms h),
    )

pub positive-nat : (n k : ℕ) → positive (nat n) ≡ some k → n ≡ k
unfolding positive
positive-nat zero k h = cc
positive-nat (suc n) k h = ground arith

some_inj : {a b : ℕ} → ◌≡◌ {A = Option ℕ} (some a) (some b) → a ≡ b
some_inj h = ground (arith, h)

checked_inv :
    (p q : Option ℕ) (jitter : Option ℕ) {d : ℕ}
    → delay_of_checked p q jitter ≡ some d
    → (a : ℕ) × (b : ℕ) × (p ≡ some a) × (q ≡ some b) × (delay_of a b jitter ≡ d)
checked_inv none q jitter h = cc
checked_inv (some a) none jitter h = cc
checked_inv (some a) (some b) jitter h = (a, b, refl, refl, some_inj h)

retry_delay_ms-eq-some :
    (m base_ms d : ℕ) (jitter : Option ℕ)
    → retry_delay_ms (nat m) (nat base_ms) jitter ≡ some d
    → (1 ≤ base_ms) × (delay_of m base_ms jitter ≡ d)
unfolding retry_delay_ms
retry_delay_ms-eq-some m base_ms d jitter h =
    let (a, b, first, second, e) =
      checked_inv (positive (nat m)) (positive (nat base_ms)) jitter h in
    (
      rw (sym (positive-nat base_ms b second)) at (positive-pos (nat base_ms) second),
      rw (positive-nat m a first, positive-nat base_ms b second) e,
    )

-- For an attempt and a later one with the same base and jitter, where both have a delay: the delay is from
-- 1 ms to a day, within 3/4 and 5/4, up to rounding, of the base doubled for each attempt before (at most 30
-- times, at most a day), and the later attempt does not wait less.
pub retry_delay_ms_lem :
    (m n base_ms d e : ℕ) (jitter : Option ℕ)
    → m ≤ n
    → retry_delay_ms (nat m) (nat base_ms) jitter ≡ some d
    → retry_delay_ms (nat n) (nat base_ms) jitter ≡ some e
    → (1 ≤ d)
      × (d ≤ max_retry_delay_ms)
      × (3 * exponential m base_ms ≤ 4 * d + 2)
      × (4 * d ≤ 5 * exponential m base_ms + 2)
      × (d ≤ e)
retry_delay_ms_lem m n base_ms d e jitter h first second =
    let (k, here) = retry_delay_ms-eq-some m base_ms d jitter first in
    let (k', there) = retry_delay_ms-eq-some n base_ms e jitter second in
    rw (here, there) at (delay_of_lem m n base_ms jitter h k)
