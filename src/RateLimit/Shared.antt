-- ===== src/RateLimit/Shared.antt =====
-- SharedLimiter of apps/engine/src/engine/ratelimit.py: the script that runs in Redis, and the
-- fall back to the in-process table. Redis is a table whose entries expire; what becomes of a call
-- of it, and what the clocks show, are parameters of each call.
use native.Mathlib.Nat.{lt-div-mul-add}
use automated_software_engin.Prelude.{
  ℕ, ◌+◌, ◌-◌, ◌*◌, ◌/◌, ◌≤◌, ◌<◌, ◌≡◌, refl, sym, ap, ◌∙◌, inl, inr, Bool, true, false, Option,
  none, some, arith, leb, ltb, if◌then◌else◌, Bool-cases, Text, text_eq, text_eq_refl, min,
}
use automated_software_engin.RateLimit.{
  Settings, TokenBucket, Buckets, Decision, allowed, retry_after, capacity, one, refilled, or_full,
  take, take_local,
}
use automated_software_engin.RateLimit.Table.{mul_mono}

-- A hash of Redis: its tokens are those of the bucket less the debt, since a replica whose clock is
-- behind takes tokens back; and the tick of Redis' own clock at which it expires.
pub record Stored : Type 0 where
  pub bucket : TokenBucket
  pub debt : ℕ
  pub expires : ℕ

pub record Limiter : Type 0 where
  pub redis : Text → Option Stored
  pub fallback : Buckets
  pub warned : Bool

-- What becomes of a call of Redis: it answers, or the call raises, before the script has run or
-- after it has, as where the answer comes too late.
pub data RedisCall : Type 0 where
  answered raised_before raised_after : RedisCall

abbrev pub is_answered : RedisCall → Bool
is_answered answered = true
is_answered _ = false

abbrev pub has_run : RedisCall → Bool
has_run raised_before = false
has_run _ = true

-- The clocks: of Redis, of the replica (`time.time`) and of its process (`time.monotonic`).
pub record Clocks : Type 0 where
  pub redis_time : ℕ
  pub wall : ℕ
  pub monotonic : ℕ

abbrev store : Text → Stored → Limiter → Limiter
store key stored l = record l { redis = λ k. if text_eq k key then some stored else l.redis k }

abbrev pub kept_bucket : Option Stored → Option TokenBucket
kept_bucket none = none
kept_bucket (some e) = some e.bucket

abbrev pub kept_debt : Option Stored → ℕ
kept_debt none = 0
kept_debt (some e) = e.debt

module _ (s : Settings) where
  -- `int(capacity / per_second) + 60`
  abbrev pub ttl : ℕ
  ttl = if ltb 0 s.per_minute then s.burst * 60 / s.per_minute + 60 else 60

  -- HGET of a hash: an expired one is gone.
  abbrev pub read : (redis_time : ℕ) → Option Stored → Option Stored
  read redis_time none = none
  read redis_time (some e) = if leb e.expires redis_time then none else some e

  -- _TAKE_SCRIPT, of what HGET gave: the answer, and the tokens that HSET writes, as a bucket and a
  -- debt. `now - ts` is negative where the hash was written by a clock that is ahead.
  unfoldable pub script : (found : Option Stored) → (now : ℕ) → Decision × TokenBucket × ℕ
  script found now =
      let start = or_full s now (kept_bucket found) in
      let credit = start.tokens + (now - start.last_refill) * s.per_minute in
      let debt = kept_debt found + (start.last_refill - now) * s.per_minute in
      let tokens = min (capacity s) (credit - debt) in
      let owed = debt - credit in
      if leb (one s) tokens
      then (allowed, record { tokens = tokens - one s; last_refill = now }, owed)
      else (
        retry_after (one s - tokens + owed),
        record { tokens = tokens; last_refill = now },
        owed,
      )

  -- `SharedLimiter.take`
  unfoldable pub take_shared : RedisCall → (key : Text) → Clocks → Limiter → Decision × Limiter
  unfolding script
  take_shared reply key at l =
      let (decision, bucket, debt) = script (read at.redis_time (l.redis key)) at.wall in
      let (decision', buckets) = take_local s key at.monotonic l.fallback in
      let expires = at.redis_time + ttl * s.hz in
      let stored : Stored = record { bucket = bucket; debt = debt; expires = expires } in
      let run : Limiter = if has_run reply then store key stored l else l in
      let degraded : Decision × Limiter =
        (decision', record run { fallback = buckets; warned = true }) in
      if is_answered reply then (decision, run) else degraded

  -- An entry without a debt that was written at its last refill.
  pub record IsWritten (e : Stored) : Type 0 where
    pub no_debt : e.debt ≡ 0
    pub at_refill : e.expires ≡ e.bucket.last_refill + ttl * s.hz

  the_gap : (a b : ℕ) → a ≤ b → a - b ≡ 0
  the_gap a b h = omega arith

  no_gap : (rate a b : ℕ) → a ≤ b → (a - b) * rate ≡ 0
  no_gap rate a b h = rw (the_gap a b h) (omega arith)

  abbrev waiting : TokenBucket → ℕ → TokenBucket
  waiting b now = record { tokens = refilled s b now; last_refill = now }

  -- What `take` gives, without a debt.
  abbrev as_script : Decision × TokenBucket → Decision × TokenBucket × ℕ
  as_script r = (r.0, r.1, 0)

  -- Where no clock was ahead, the script does what `TokenBucket.take` does.
  script-take :
      (found : Option Stored) (now : ℕ)
      → kept_debt found ≡ 0
      → (or_full s now (kept_bucket found)).last_refill ≤ now
      → script found now ≡ as_script (take s (or_full s now (kept_bucket found)) now)
  unfolding script take
  script-take found now free past =
      let start = or_full s now (kept_bucket found) in
      let credit = start.tokens + (now - start.last_refill) * s.per_minute in
      let debt = kept_debt found + (start.last_refill - now) * s.per_minute in
      let none_owed : debt ≡ 0 = rw (free, no_gap s.per_minute start.last_refill now past) refl in
      let same : credit - debt ≡ credit = omega (arith, none_owed) in
      let paid : debt - credit ≡ 0 = omega (arith, none_owed) in
      rw (same, paid)
        (elim (Bool-cases (leb (one s) (refilled s start now))) [
          | inl e ↦ rw e refl
          | inr e ↦ rw e (ap (λ (n : ℕ). (retry_after n, waiting start now, 0)) (omega arith))
        ])

  fills :
      (full need tokens given : ℕ) → full ≤ need → need ≤ given → min full (tokens + given) ≡ full
  fills full need tokens given h k = omega arith

  -- The time to live refills a whole bucket.
  ttl_fills : 0 < s.per_minute → s.burst * 60 ≤ ttl * s.per_minute
  ttl_fills fast =
      let refills : ttl ≡ s.burst * 60 / s.per_minute + 60 = ground (arith, fast) in
      let product = ap (λ (t : ℕ). t * s.per_minute) refills in
      omega (arith, product, lt-div-mul-add {a = s.burst * 60} fast)

  full_after :
      (b : TokenBucket) (now : ℕ)
      → 0 < s.per_minute
      → b.last_refill + ttl * s.hz ≤ now
      → refilled s b now ≡ capacity s
  full_after b now fast h =
      let filled = mul_mono (s.burst * 60) (ttl * s.per_minute) s.hz (ttl_fills fast) in
      let waited = mul_mono (ttl * s.hz) (now - b.last_refill) s.per_minute (omega arith) in
      fills (capacity s) (ttl * s.hz * s.per_minute) b.tokens ((now - b.last_refill) * s.per_minute)
        (omega (arith, filled)) waited

  take-same :
      (b c : TokenBucket) (now : ℕ)
      → refilled s b now ≡ refilled s c now
      → take s b now ≡ take s c now
  unfolding take
  take-same b c now h = rw (h, take)

  -- The expiry of an entry changes no decision: Redis answers as a bucket that is kept for ever
  -- and filled anew.
  script-read :
      (e : Stored) (now : ℕ)
      → 0 < s.per_minute
      → IsWritten e
      → e.bucket.last_refill ≤ now
      → script (read now (some e)) now ≡ as_script (take s e.bucket now)
  script-read e now fast w past = elim (Bool-cases (leb e.expires now)) [
    | inr live ↦ rw live (script-take (some e) now w.no_debt past)
    | inl gone ↦ rw gone (
        script-take none now refl (omega arith)
        ∙ ap as_script (
            take-same (or_full s now none) e.bucket now (
              omega arith
              ∙ sym (full_after e.bucket now fast (ground (arith, gone, w.at_refill))))))
  ]

  -- Every entry of Redis was written by the script.
  abbrev pub AreWritten : Limiter → Type 0
  AreWritten l = (key : Text) (e : Stored) → l.redis key ≡ some e → IsWritten e

  -- The caller's entry is not of the future.
  abbrev pub IsPast : (now : ℕ) → Option Stored → Type 0
  IsPast now o = (e : Stored) → o ≡ some e → e.bucket.last_refill ≤ now

  script-kept :
      (o : Option Stored) (now : ℕ)
      → 0 < s.per_minute
      → ((e : Stored) → o ≡ some e → IsWritten e)
      → IsPast now o
      → script (read now o) now ≡ as_script (take s (or_full s now (kept_bucket o)) now)
  script-kept none now fast w past = script-take none now refl (omega arith)
  script-kept (some e) now fast w past = script-read e now fast (w e refl) (past e refl)

  -- The entry that a run of the script leaves behind.
  abbrev entry_of : Decision × TokenBucket × ℕ → (now : ℕ) → Stored
  entry_of r now = record { bucket = r.1; debt = r.2; expires = now + ttl * s.hz }

  stored_bucket :
      (key : Text) (now : ℕ) (l : Limiter) {r : Decision × TokenBucket × ℕ}
      {kept : Decision × TokenBucket}
      → r ≡ as_script kept
      → kept_bucket ((store key (entry_of r now) l).redis key) ≡ some kept.1
  stored_bucket key now l same =
      ground (arith, text_eq_refl key, ap (λ (r : Decision × TokenBucket × ℕ). r.1) same)

  taken_at : (b : TokenBucket) (now : ℕ) → (take s b now).1.last_refill ≡ now
  unfolding take
  taken_at b now = ground arith

  entry_of-IsWritten :
      (b : TokenBucket) (now : ℕ) {r : Decision × TokenBucket × ℕ}
      → r ≡ as_script (take s b now)
      → IsWritten (entry_of r now)
  entry_of-IsWritten b now same = record {
    no_debt = ap (λ (r : Decision × TokenBucket × ℕ). r.2) same;
    at_refill =
        ap (λ (t : ℕ). t + ttl * s.hz)
          (sym (ap (λ (r : Decision × TokenBucket × ℕ). r.1.last_refill) same ∙ taken_at b now));
  }

  store-AreWritten :
      (key : Text) (entry : Stored) (l : Limiter)
      → IsWritten entry
      → AreWritten l
      → AreWritten (store key entry l)
  store-AreWritten key entry l fresh w k e h = elim (Bool-cases (text_eq k key)) [
    | inl mine ↦
        let same : entry ≡ e = ground (arith, mine, h) in
        record { no_debt = rw (sym same) fresh.no_debt; at_refill = rw (sym same) fresh.at_refill }
    | inr other ↦ w k e (ground (arith, other, h))
  ]

  -- Let the clocks of Redis and of the replicas agree, so that the caller's entry was written
  -- before. While Redis answers, a call decides as the bucket of its caller that is kept for ever,
  -- whatever has expired, and leaves the in-process table alone; while the call of Redis raises, it
  -- decides as the in-process limiter. Where the script has run, answered or not, Redis holds the
  -- caller's bucket as it is after the call; where it has not, Redis is left alone.
  pub take_shared-decides :
      (reply : RedisCall) (key : Text) (now monotonic : ℕ) (l : Limiter)
      → 0 < s.per_minute
      → AreWritten l
      → IsPast now (l.redis key)
      → let at : Clocks = record { redis_time = now; wall = now; monotonic = monotonic } in
        let next = take_shared reply key at l in
        let kept = take s (or_full s now (kept_bucket (l.redis key))) now in
        let local = take_local s key monotonic l.fallback in
        (if is_answered reply
          then (next.0 ≡ kept.0) × (next.1.fallback ≡ l.fallback)
          else (next.0 ≡ local.0) × (next.1.fallback ≡ local.1))
        × (if has_run reply
            then (kept_bucket (next.1.redis key) ≡ some kept.1) × AreWritten next.1
            else next.1.redis ≡ l.redis)
  unfolding take_shared
  take_shared-decides answered key now monotonic l fast w past =
      let same = script-kept (l.redis key) now fast (w key) past in
      (
        (ap (λ (r : Decision × TokenBucket × ℕ). r.0) same, refl),
        (stored_bucket key now l same, store-AreWritten key _ l (entry_of-IsWritten _ now same) w),
      )
  take_shared-decides raised_before key now monotonic l fast w past = ((refl, refl), refl)
  take_shared-decides raised_after key now monotonic l fast w past =
      let same = script-kept (l.redis key) now fast (w key) past in
      (
        (refl, refl),
        (stored_bucket key now l same, store-AreWritten key _ l (entry_of-IsWritten _ now same) w),
      )
