-- ===== src/Llm.antt =====
-- apps/engine/src/engine/llm/router.py: the one gateway to the language models. The providers are
-- a parameter, which acts on a state of its own; tracing and logging are left out.
pub mod Retries
pub mod Keys
use automated_software_engin.Prelude.{
  ℕ, zero, suc, ◌+◌, Bool, true, false, Option, none, some, List, [], ◌∷◌, if◌then◌else◌, Text,
}
use automated_software_engin.Errors.{Exc, Reply, ok, raise}

-- How a call of a provider ends: RateLimitError, one of the four transient errors, or another one.
pub data Attempt {ℓ} (A : Type ℓ) : Type ℓ where
  done : A → Attempt A
  rate_limited transient : Exc → Attempt A
  broken : Exc → Attempt A

-- RATE_LIMIT_DELAYS_S and TRANSIENT_DELAYS_S
abbrev pub rate_limit_delays : List ℕ
rate_limit_delays = 15 ∷ 30 ∷ 60 ∷ []

abbrev pub transient_delays : List ℕ
transient_delays = 1 ∷ 2 ∷ 4 ∷ []

-- What a call with retries comes to: its result, the provider's state, the calls that were made,
-- the newest first, and the seconds of sleep.
pub record Retried (A S : Type 0) : Type 0 where
  pub result : Reply A
  pub state : S
  pub calls : List (Attempt A)
  pub slept : ℕ

module _ {A S : Type 0} (provider : S → Attempt A × S) where
  abbrev pub ended : Reply A → S → List (Attempt A) → ℕ → Retried A S
  ended result state calls slept = record {
    result = result;
    state = state;
    calls = calls;
    slept = slept;
  }

  -- The `while True` loop, on the delays that are left of the two iterators.
  unfoldable pub retry_loop :
      (fuel : ℕ)
      → (rate waits : List ℕ) → (calls : List (Attempt A)) → (slept : ℕ) → S
      → Option (Retried A S)
  retry_loop zero rate waits calls slept s = none
  retry_loop (suc fuel) rate waits calls slept s =
      let (attempt, s') = provider s in
      let calls' = attempt ∷ calls in
      elim attempt [
        | done a ↦ some (ended (ok a) s' calls' slept)
        | broken x ↦ some (ended (raise x) s' calls' slept)
        | rate_limited x ↦ elim rate [
          | [] ↦ some (ended (raise x) s' calls' slept)
          | delay ∷ rest ↦ retry_loop fuel rest waits calls' (slept + delay) s'
        ]
        | transient x ↦ elim waits [
          | [] ↦ some (ended (raise x) s' calls' slept)
          | delay ∷ rest ↦ retry_loop fuel rate rest calls' (slept + delay) s'
        ]
      ]

  -- `_call_with_retries`: one call more than there are delays.
  unfoldable pub call_with_retries : S → Option (Retried A S)
  unfolding retry_loop
  call_with_retries s = retry_loop 7 rate_limit_delays transient_delays [] 0 s
