-- ===== src/Outbox/Claims.antt =====
-- The delay between the attempts to publish an event (server/core/events/publish.py).
use native.Mathlib.Nat.{le-mul_of_pos_right, mul-le-mul_left, one-le-pow, pow-le-pow_right}
use uumi.Prelude.{arith, min, nat_eq, option_eq, string_eq, ℕ, ◌*◌, ◌-◌, ◌^◌, ◌≤◌}
use uumi.Outbox.{backoff}

mul_grows : (a k : ℕ) → 1 ≤ k → a ≤ a * k
mul_grows a k h = le-mul_of_pos_right a h

mul_mono : (a : ℕ) {k l : ℕ} → k ≤ l → a * k ≤ a * l
mul_mono a h = mul-le-mul_left a h

-- The delay before the next attempt is at least the base and at most the maximum.
backoff-bounds :
    (retry_base retry_max attempts : ℕ)
    → retry_base ≤ retry_max
    → (retry_base ≤ backoff retry_base retry_max attempts)
      × (backoff retry_base retry_max attempts ≤ retry_max)
unfolding backoff
backoff-bounds retry_base retry_max attempts order =
    let power = one-le-pow (min (attempts - 1) 16) 2 (ground arith) in
    let product = mul_grows retry_base (2 ^ min (attempts - 1) 16) power in
    (ground arith, ground arith)

-- The delay does not shrink from an attempt to a later one.
pub backoff-grows :
    (retry_base retry_max attempts later : ℕ)
    → attempts ≤ later
    → backoff retry_base retry_max attempts ≤ backoff retry_base retry_max later
unfolding backoff
backoff-grows retry_base retry_max attempts later order =
    let exponents : min (attempts - 1) 16 ≤ min (later - 1) 16 = ground arith in
    let power = pow-le-pow_right {n = 2} (ground arith) exponents in
    let product = mul_mono retry_base power in ground arith
