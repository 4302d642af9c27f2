-- ===== src/RateLimit.antt =====
-- apps/engine/src/engine/ratelimit.py. Floats are exact here: time is counted in ticks, `hz` of
-- them a second, and tokens in parts, of which a token is 60 * hz, so that a tick refills
-- RATE_LIMIT_PER_MINUTE parts. The clocks, the JWT library and Redis are parameters.
pub mod Table
pub mod Bound
pub mod Retry
pub mod Shared
use automated_software_engin.Prelude.{
  ℕ, zero, suc, ◌+◌, ◌-◌, ◌*◌, ◌/◌, ◌%◌, Bool, true, false, not, ◌||◌, Option, none, some, List, [],
  ◌∷◌, ◌++◌, filter_by, length, leb, ltb, ◌==◌, if◌then◌else◌, Text, codes, text_eq, max, min,
}

-- RATE_LIMIT_PER_MINUTE, RATE_LIMIT_BURST, and the ticks of a second.
pub record Settings : Type 0 where
  pub per_minute : ℕ
  pub burst : ℕ
  pub hz : ℕ

-- One token, in parts.
abbrev pub one : Settings → ℕ
one s = 60 * s.hz

abbrev pub capacity : Settings → ℕ
capacity s = s.burst * one s

-- TokenBucket
pub record TokenBucket : Type 0 where
  pub tokens : ℕ
  pub last_refill : ℕ

-- 0.0, or the seconds until the next token: the parts that are missing for it, to be divided by
-- the refill.
pub data Decision : Type 0 where
  allowed : Decision
  retry_after : (missing : ℕ) → Decision

module _ (s : Settings) where
  -- The tokens after the refill.
  abbrev pub refilled : TokenBucket → (now : ℕ) → ℕ
  refilled b now = min (capacity s) (b.tokens + (now - b.last_refill) * s.per_minute)

  -- `TokenBucket.take`
  unfoldable pub take : TokenBucket → (now : ℕ) → Decision × TokenBucket
  take b now =
      let tokens = refilled b now in
      if leb (one s) tokens
      then (allowed, record { tokens = tokens - one s; last_refill = now })
      else (retry_after (one s - tokens), record { tokens = tokens; last_refill = now })

-- LocalLimiter: the table of buckets.
abbrev pub Buckets : Type 0
Buckets = List (Text × TokenBucket)

-- _PRUNE_ABOVE, _IDLE_SECONDS
abbrev pub prune_above : ℕ
prune_above = 5000

abbrev pub idle_seconds : ℕ
idle_seconds = 600

abbrev pub get_bucket : Text → Buckets → Option TokenBucket
get_bucket key [] = none
get_bucket key ((k, b) ∷ bs) =
    let rest = get_bucket key bs in if text_eq key k then some b else rest

abbrev pub set_bucket : Text → TokenBucket → Buckets → Buckets
set_bucket key b [] = (key, b) ∷ []
set_bucket key b ((k, c) ∷ bs) =
    let rest = set_bucket key b bs in if text_eq key k then (k, b) ∷ bs else (k, c) ∷ rest

module _ (s : Settings) where
  abbrev pub is_stale : (now : ℕ) → Text × TokenBucket → Bool
  is_stale now entry = ltb (idle_seconds * s.hz) (now - entry.1.last_refill)

  -- `LocalLimiter._prune`
  unfoldable pub prune : (now : ℕ) → Buckets → Buckets
  prune now buckets =
      if leb (length buckets) prune_above
      then buckets
      else filter_by (λ entry. not (is_stale now entry)) buckets

  -- The bucket of a caller, full where there is none.
  abbrev pub or_full : (now : ℕ) → Option TokenBucket → TokenBucket
  or_full now none = record { tokens = capacity s; last_refill = now }
  or_full now (some b) = b

  -- `LocalLimiter.take`
  unfoldable pub take_local : (key : Text) → (now : ℕ) → Buckets → Decision × Buckets
  unfolding prune take
  take_local key now buckets =
      let kept = prune now buckets in
      let (decision, bucket) = take s (or_full now (get_bucket key kept)) now in
      (decision, set_bucket key bucket kept)

-- An HTTP request, as far as the middleware reads it; an ASGI scope of another type is none.
pub record Request : Type 0 where
  pub is_http : Bool
  pub path : Text
  pub headers : List (Text × Text)
  pub client : Option Text

-- _PROBE_PATHS
abbrev pub is_probe : Text → Bool
is_probe path = text_eq path (codes "/healthz") || text_eq path (codes "/readyz")

-- `value.removeprefix("Bearer ")`
abbrev pub drop_prefix : Text → Text → Option Text
drop_prefix [] text = some text
drop_prefix (c ∷ prefix) [] = none
drop_prefix (c ∷ prefix) (d ∷ text) =
    let rest = drop_prefix prefix text in if c == d then rest else none

abbrev pub token_of : Text → Text
token_of value = elim (drop_prefix (codes "Bearer ") value) [ none ↦ value | some token ↦ token ]

abbrev pub address_of : Option Text → Text
address_of none = codes "ip:unknown"
address_of (some client) = codes "ip:" ++ client

-- `_caller_key`; `verify` answers the subject of a token that is valid.
unfoldable pub caller_key : (verify : Text → Option Text) → List (Text × Text) → Option Text → Text
caller_key verify [] client = address_of client
caller_key verify ((name, value) ∷ headers) client =
    let rest = caller_key verify headers client in
    if text_eq name (codes "authorization")
    then elim (verify (token_of value)) [
      | none ↦ address_of client
      | some subject ↦ codes "user:" ++ subject
    ]
    else rest

pub data Answer : Type 0 where
  passed : Answer
  -- 429, with the seconds of its header
  too_many_requests : ℕ → Answer

-- Python's `round` of a quotient: halves go to the even side.
abbrev pub round_quotient : ℕ → ℕ → ℕ
round_quotient n d =
    if ltb (2 * (n % d)) d
    then n / d
    else if ltb d (2 * (n % d))
    then n / d + 1
    else if n / d % 2 == 0
    then n / d
    else n / d + 1

-- `max(1, round(retry_after))`
abbrev pub answer_of : Settings → Decision → Answer
answer_of s allowed = passed
answer_of s (retry_after missing) =
    too_many_requests (max 1 (round_quotient missing (s.per_minute * s.hz)))

-- `RateLimitMiddleware.__call__` with the in-process limiter.
unfoldable pub call :
    Settings → (verify : Text → Option Text) → Request → (now : ℕ) → Buckets → Answer × Buckets
unfolding take_local caller_key
call s verify r now buckets =
    if not r.is_http || is_probe r.path || s.per_minute == 0
    then (passed, buckets)
    else let (decision, buckets') =
        take_local s (caller_key verify r.headers r.client) now buckets in
      (answer_of s decision, buckets')
