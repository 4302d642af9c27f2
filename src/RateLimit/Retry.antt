-- ===== src/RateLimit/Retry.antt =====
-- What the Retry-After header of the rate limiter is worth to a caller.
use native.Mathlib.Nat.{lt-div-mul-add}
use automated_software_engin.Prelude.{
  ℕ, ◌+◌, ◌-◌, ◌*◌, ◌/◌, ◌≤◌, ◌<◌, ◌≡◌, refl, subst, ap, inl, inr, not, ◌||◌, Option, arith,
  Bool-cases, Text, ◌==◌, max,
}
use automated_software_engin.RateLimit.{
  Settings, Buckets, Decision, allowed, retry_after, capacity, one, idle_seconds, take_local,
  Request, is_probe, caller_key, passed, too_many_requests, round_quotient, answer_of, call,
}
use automated_software_engin.RateLimit.Table.{DistinctKeys, mul_mono}
use automated_software_engin.RateLimit.Bound.{take_local-retry}

regroup : (k a b : ℕ) → k * a * b ≡ k * (b * a)
regroup k a b = grind arith

product_pos : (a b : ℕ) → 0 < a → 0 < b → 0 < a * b
product_pos a b h k = let more = mul_mono 1 a b h in omega (arith, more, k)

within : (n q m d w : ℕ) → n < q * d + d → (q + 1) * d ≤ m → m ≤ w → n ≤ w
within n q m d w h k l = let split : (q + 1) * d ≡ q * d + d = (grind arith) in omega (arith, split)

module _ (s : Settings) where
  round_floor : (n d : ℕ) → n / d ≤ max 1 (round_quotient n d)
  round_floor n d = ground arith

  -- The header is no more than half a second short, so a second more is enough.
  header_waits :
      (missing waited : ℕ)
      → 0 < s.per_minute * s.hz
      → (max 1 (round_quotient missing (s.per_minute * s.hz)) + 1) * s.hz ≤ waited
      → missing ≤ waited * s.per_minute
  header_waits missing waited fast h =
      let d = s.per_minute * s.hz in
      let rounded = max 1 (round_quotient missing d) in
      let floor : missing / d ≤ rounded = round_floor missing d in
      let more = mul_mono (missing / d + 1) (rounded + 1) d (omega (arith, floor)) in
      let long = mul_mono ((rounded + 1) * s.hz) waited s.per_minute h in
      let same : (rounded + 1) * s.hz * s.per_minute ≡ (rounded + 1) * d =
        regroup (rounded + 1) s.hz s.per_minute in
      within missing (missing / d) ((rounded + 1) * d) d (waited * s.per_minute)
        (lt-div-mul-add {a = missing} fast) more
        (subst (λ (n : ℕ). n ≤ waited * s.per_minute) same long)

  answer_of-refused :
      (d : Decision) (seconds : ℕ)
      → answer_of s d ≡ too_many_requests seconds
      → (missing : ℕ) × (d ≡ retry_after missing)
        × (seconds ≡ max 1 (round_quotient missing (s.per_minute * s.hz)))
  answer_of-refused allowed seconds e = cc
  answer_of-refused (retry_after missing) seconds e = (missing, refl, ground (arith, e))

  -- A request that is refused with a Retry-After is let through when it comes again after a second
  -- more than that, with no other request in between: the header is rounded, down too. A bucket can
  -- hold a token at all, and fills within the idle time of the pruning.
  pub call-retry :
      (verify : Text → Option Text) (r : Request) (now later seconds : ℕ) (bs : Buckets)
      → capacity s ≤ idle_seconds * s.hz * s.per_minute
      → one s ≤ capacity s
      → 0 < s.hz
      → DistinctKeys bs
      → (call s verify r now bs).0 ≡ too_many_requests seconds
      → (seconds + 1) * s.hz ≤ later - now
      → (call s verify r later (call s verify r now bs).1).0 ≡ passed
  unfolding call
  call-retry verify r now later seconds bs enough room ticks d refused waited =
      elim (Bool-cases (not r.is_http || is_probe r.path || s.per_minute == 0)) [
        | inl free ↦ absurd (ground (arith, free, refused))
        | inr counted ↦
            let key = caller_key verify r.headers r.client in
            let (missing, held, told) =
              answer_of-refused (take_local s key now bs).0 seconds
                (ground (arith, counted, refused)) in
            let next = take_local-retry s key now later missing bs enough room d held (
              header_waits missing (later - now)
                (product_pos s.per_minute s.hz (ground (arith, counted)) ticks)
                (subst (λ (n : ℕ). (n + 1) * s.hz ≤ later - now) told waited)) in
            rw (counted, call) (ap (answer_of s) next)
      ]
