-- ===== src/Llm/Retries.antt =====
-- The calls and the waits of a call with retries.
use automated_software_engin.Prelude.{
  ℕ, zero, suc, ◌+◌, ◌≤◌, ◌<◌, ◌≡◌, refl, some, List, [], ◌∷◌, arith, length, All,
}
use automated_software_engin.Errors.{Reply, ok, raise}
use automated_software_engin.Llm.{
  Attempt, done, rate_limited, transient, broken, Retried, rate_limit_delays, transient_delays,
  ended, retry_loop, call_with_retries,
}

abbrev total : List ℕ → ℕ
total [] = 0
total (n ∷ ns) = n + total ns

module _ {A : Type 0} where
  abbrev pub result_of : Attempt A → Reply A
  result_of (done a) = ok a
  result_of (rate_limited x) = raise x
  result_of (transient x) = raise x
  result_of (broken x) = raise x

  abbrev pub is_rate_limited : Attempt A → ℕ
  is_rate_limited (rate_limited x) = 1
  is_rate_limited _ = 0

  abbrev pub is_transient : Attempt A → ℕ
  is_transient (transient x) = 1
  is_transient _ = 0

  -- How often the calls met a rate limit, and a transient failure.
  abbrev pub rate_limits : List (Attempt A) → ℕ
  rate_limits [] = 0
  rate_limits (c ∷ cs) = is_rate_limited c + rate_limits cs

  abbrev pub transients : List (Attempt A) → ℕ
  transients [] = 0
  transients (c ∷ cs) = is_transient c + transients cs

  -- A failure that is worth a retry: one of the two kinds.
  abbrev pub IsRetryable : Attempt A → Type 0
  IsRetryable c = is_rate_limited c + is_transient c ≡ 1

  -- The last call gives the result, the earlier ones failed in a way that is worth a retry, and
  -- the last one gives up only as the fourth of its kind.
  abbrev pub Calls : Reply A → List (Attempt A) → Type 0
  Calls result [] = ⊥
  Calls result (last ∷ earlier) =
      (result ≡ result_of last)
      × All IsRetryable earlier
      × (is_rate_limited last ≡ 1 → rate_limits (last ∷ earlier) ≡ 4)
      × (is_transient last ≡ 1 → transients (last ∷ earlier) ≡ 4)

module _ {A S : Type 0} (provider : S → Attempt A × S) where
  pub record IsRetried (r : Retried A S) : Type 0 where
    pub calls : Calls r.result r.calls
    pub few : length r.calls ≤ 7
    pub patient : r.slept ≤ 112

  -- What the loop has used up, and what is left.
  record IsLeft (fuel : ℕ) (rate waits : List ℕ) (calls : List (Attempt A)) (slept : ℕ)
      : Type 0 where
    rounds : length rate + length waits < fuel
    rates : rate_limits calls + length rate ≡ 3
    pauses : transients calls + length waits ≡ 3
    size : length calls ≡ rate_limits calls + transients calls
    sleep : slept + total rate + total waits ≡ 112
    retryable : All IsRetryable calls

  retry_loop-IsRetried :
      (fuel : ℕ) (rate waits : List ℕ) (calls : List (Attempt A)) (slept : ℕ) (s : S)
      → IsLeft fuel rate waits calls slept
      → (r : Retried A S) × (retry_loop provider fuel rate waits calls slept s ≡ some r)
        × IsRetried r
  unfolding retry_loop
  retry_loop-IsRetried zero rate waits calls slept s l = absurd (omega arith)
  retry_loop-IsRetried (suc fuel) rate waits calls slept s l =
      go rate waits (provider s).0 refl l (retry_loop-IsRetried fuel)
    where
      go :
          (rate waits : List ℕ) (attempt : Attempt A)
          → (provider s).0 ≡ attempt
          → IsLeft (suc fuel) rate waits calls slept
          → ((rate waits : List ℕ) (calls : List (Attempt A)) (slept : ℕ) (s : S)
              → IsLeft fuel rate waits calls slept
              → (r : Retried A S) × (retry_loop provider fuel rate waits calls slept s ≡ some r)
                × IsRetried r)
          → (r : Retried A S) × (retry_loop provider (suc fuel) rate waits calls slept s ≡ some r)
            × IsRetried r
      go rate waits (done a) e l next = (
        ended provider (ok a) (provider s).1 (done a ∷ calls) slept,
        rw (e, retry_loop) (rw e),
        record {
          calls = (refl, l.retryable, λ h. absurd (omega arith), λ h. absurd (omega arith));
          few = omega arith;
          patient = omega arith;
        },
      )
      go rate waits (broken x) e l next = (
        ended provider (raise x) (provider s).1 (broken x ∷ calls) slept,
        rw (e, retry_loop) (rw e),
        record {
          calls = (refl, l.retryable, λ h. absurd (omega arith), λ h. absurd (omega arith));
          few = omega arith;
          patient = omega arith;
        },
      )
      go [] waits (rate_limited x) e l next = (
        ended provider (raise x) (provider s).1 (rate_limited x ∷ calls) slept,
        rw (e, retry_loop) (rw e),
        record {
          calls = (refl, l.retryable, λ h. omega arith, λ h. absurd (omega arith));
          few = omega arith;
          patient = omega arith;
        },
      )
      go (d ∷ rate) waits (rate_limited x) e l next =
          let (r, found, good) =
            next rate waits (rate_limited x ∷ calls) (slept + d) (provider s).1 (record {
              rounds = omega arith;
              rates = omega arith;
              pauses = omega arith;
              size = omega arith;
              sleep = omega arith;
              retryable = (refl, l.retryable);
            }) in
          (r, rw (e, retry_loop) (rw e found), good)
      go rate [] (transient x) e l next = (
        ended provider (raise x) (provider s).1 (transient x ∷ calls) slept,
        rw (e, retry_loop) (rw e),
        record {
          calls = (refl, l.retryable, λ h. absurd (omega arith), λ h. omega arith);
          few = omega arith;
          patient = omega arith;
        },
      )
      go rate (d ∷ waits) (transient x) e l next =
          let (r, found, good) =
            next rate waits (transient x ∷ calls) (slept + d) (provider s).1 (record {
              rounds = omega arith;
              rates = omega arith;
              pauses = omega arith;
              size = omega arith;
              sleep = omega arith;
              retryable = (refl, l.retryable);
            }) in
          (r, rw (e, retry_loop) (rw e found), good)

  -- A call with retries always ends, after at most seven calls and 112 seconds of sleep. Its last
  -- call gives the result, each earlier one met a rate limit or a transient failure, and it gives
  -- up on one of these only when it is the fourth of its kind.
  pub call_with_retries-IsRetried :
      (s : S) → (r : Retried A S) × (call_with_retries provider s ≡ some r) × IsRetried r
  unfolding call_with_retries
  call_with_retries-IsRetried s =
      retry_loop-IsRetried 7 rate_limit_delays transient_delays [] 0 s (record {
        rounds = omega arith;
        rates = omega arith;
        pauses = omega arith;
        size = omega arith;
        sleep = omega arith;
        retryable = tt;
      })
