-- ===== src/RateLimit/Bound.antt =====
-- What the in-process limiter lets through.
use native.Mathlib.Nat.{add-zero}
use automated_software_engin.Prelude.{
  ℕ, ◌+◌, ◌-◌, ◌*◌, ◌≤◌, ◌≡◌, sym, subst, ap, ◌∙◌, inl, inr, Option, none, some, List, [], ◌∷◌,
  arith, if◌then◌else◌, Bool-cases, Text, text_eq, text_eq→eq, text_eq_refl, min,
}
use automated_software_engin.RateLimit.{
  Settings, TokenBucket, Buckets, Decision, allowed, retry_after, get_bucket, set_bucket, capacity,
  one, refilled, or_full, take, prune, idle_seconds, take_local,
}
use automated_software_engin.RateLimit.Table.{
  DistinctKeys, level, mul_mono, level-prune, prune-DistinctKeys, set_bucket-DistinctKeys,
  get_bucket-set_bucket,
}

-- The sums of the proofs below, over plain numbers.
shift_level : (x y z c : ℕ) → x ≡ y → y + c ≡ z → x + c ≡ z
shift_level x y z c h k = omega arith

add_levels :
    (rest c l0 l1 l2 x y z : ℕ)
    → rest ≤ l1 + y
    → l1 + c ≡ l2
    → l2 ≤ l0 + x
    → x + y ≤ z
    → c + rest ≤ l0 + z
add_levels rest c l0 l1 l2 x y z h k m n = omega arith

split_time : (a b c p : ℕ) → a ≤ b → b ≤ c → (b - a) * p + (c - b) * p ≤ (c - a) * p
split_time a b c p h k =
    let sum : b - a + (c - b) ≡ c - a = omega arith in omega (arith, ap (λ (t : ℕ). t * p) sum)

-- What a decision costs.
abbrev pub cost : Settings → Decision → ℕ
cost s allowed = one s
cost s (retry_after missing) = 0

module _ (s : Settings) where
  take-cost :
      (b : TokenBucket) (now : ℕ)
      → refilled s (take s b now).1 now + cost s (take s b now).0 ≡ refilled s b now
  unfolding take
  take-cost b now = ground arith

  -- With time come tokens, as many as the refill gives.
  refilled-later :
      (b : TokenBucket) (now later : ℕ)
      → refilled s b later ≤ refilled s b now + (later - now) * s.per_minute
  refilled-later b now later =
      let apart : (later - b.last_refill) * s.per_minute
          ≤ (now - b.last_refill + (later - now)) * s.per_minute =
        mul_mono (later - b.last_refill) (now - b.last_refill + (later - now)) s.per_minute
          (omega arith) in
      omega (arith, apart)

  level-later :
      (key : Text) (now later : ℕ) (bs : Buckets)
      → level s key later bs ≤ level s key now bs + (later - now) * s.per_minute
  level-later key now later bs = go (get_bucket key bs)
    where
      go :
          (o : Option TokenBucket)
          → refilled s (or_full s later o) later
            ≤ refilled s (or_full s now o) now + (later - now) * s.per_minute
      go none = omega arith
      go (some b) = refilled-later b now later

  module _ (enough : capacity s ≤ idle_seconds * s.hz * s.per_minute) where
    -- A call takes from its own caller alone.
    take_local-level :
        (j key : Text) (now : ℕ) (bs : Buckets)
        → DistinctKeys bs
        → level s j now (take_local s key now bs).1
            + (if text_eq j key then cost s (take_local s key now bs).0 else 0)
          ≡ level s j now bs
    unfolding take_local
    take_local-level j key now bs d =
        let kept = prune s now bs in
        let b = or_full s now (get_bucket key kept) in
        let b' = (take s b now).1 in
        let found = get_bucket-set_bucket j key b' kept in
        let shape = λ (o : Option TokenBucket). refilled s (or_full s now o) now in
        elim (Bool-cases (text_eq j key)) [
          | inl e ↦
              let mine : get_bucket j (set_bucket key b' kept) ≡ some b' =
                ground (arith, e, found) in
              let named : level s key now kept ≡ level s j now kept =
                ap (λ t. level s t now kept) (sym (text_eq→eq j key e)) in
              rw e (
                shift_level _ _ _ _ (ap shape mine)
                  (take-cost b now ∙ (named ∙ level-prune s j now bs d enough)))
          | inr e ↦
              let other : get_bucket j (set_bucket key b' kept) ≡ get_bucket j kept =
                ground (arith, e, found) in
              rw e (
                shift_level _ _ _ 0 (ap shape other) (add-zero _ ∙ level-prune s j now bs d enough))
        ]

    take_local-DistinctKeys :
        (key : Text) (now : ℕ) (bs : Buckets)
        → DistinctKeys bs
        → DistinctKeys (take_local s key now bs).1
    unfolding take_local
    take_local-DistinctKeys key now bs d =
        set_bucket-DistinctKeys key (take s (or_full s now (get_bucket key (prune s now bs))) now).1
          (prune s now bs) (prune-DistinctKeys s now bs d)

  -- The requests of a while, with the callers' keys, in order.
  abbrev pub requests : List (Text × ℕ) → Buckets → Buckets
  requests [] bs = bs
  requests ((key, now) ∷ rs) bs = requests rs (take_local s key now bs).1

  -- How many requests of one caller were let through, as the tokens that they took, in parts.
  abbrev pub admitted : Text → List (Text × ℕ) → Buckets → ℕ
  admitted j [] bs = 0
  admitted j ((key, now) ∷ rs) bs =
      (if text_eq j key then cost s (take_local s key now bs).0 else 0)
      + admitted j rs (take_local s key now bs).1

-- The clock does not go back.
abbrev pub InOrder : (start : ℕ) → List (Text × ℕ) → (end : ℕ) → Type 0
InOrder start [] end = start ≤ end
InOrder start ((key, now) ∷ rs) end = (start ≤ now) × InOrder now rs end

later_end : (start : ℕ) (rs : List (Text × ℕ)) (end : ℕ) → InOrder start rs end → start ≤ end
later_end start [] end h = h
later_end start ((key, now) ∷ rs) end h = omega (arith, later_end now rs end h.1)

module _ (s : Settings) where
  -- Over any while, a caller takes no more tokens than it had and the refill gives.
  admitted-level :
      (j : Text) (rs : List (Text × ℕ)) (start end : ℕ) (bs : Buckets)
      → capacity s ≤ idle_seconds * s.hz * s.per_minute
      → DistinctKeys bs
      → InOrder start rs end
      → admitted s j rs bs ≤ level s j start bs + (end - start) * s.per_minute
  admitted-level j [] start end bs enough d h = omega arith
  admitted-level j ((key, now) ∷ rs) start end bs enough d h =
      let rest =
        admitted-level j rs now end (take_local s key now bs).1 enough
          (take_local-DistinctKeys s enough key now bs d) h.1 in
      let now_level = take_local-level s enough j key now bs d in
      let earlier = level-later s j start now bs in
      let whole : (now - start) * s.per_minute + (end - now) * s.per_minute
          ≤ (end - start) * s.per_minute =
        split_time start now end s.per_minute h.0 (later_end now rs end h.1) in
      add_levels _ _ _ _ _ _ _ _ rest now_level earlier whole

  -- Where a bucket fills within the idle time of the pruning, over any while each caller is let
  -- through at most RATE_LIMIT_BURST times, and once more for each token that the while refills.
  pub admitted-bound :
      (j : Text) (rs : List (Text × ℕ)) (start end : ℕ) (bs : Buckets)
      → capacity s ≤ idle_seconds * s.hz * s.per_minute
      → DistinctKeys bs
      → InOrder start rs end
      → admitted s j rs bs ≤ s.burst * one s + (end - start) * s.per_minute
  admitted-bound j rs start end bs enough d h =
      omega (arith, admitted-level j rs start end bs enough d h)

  take-allowed : (b : TokenBucket) (now : ℕ) → one s ≤ refilled s b now → (take s b now).0 ≡ allowed
  unfolding take
  take-allowed b now h = ground arith

  take-missing :
      (b : TokenBucket) (now missing : ℕ)
      → (take s b now).0 ≡ retry_after missing
      → ((take s b now).1 ≡ record { tokens = refilled s b now; last_refill = now })
        × (refilled s b now + missing ≡ one s)
  unfolding take
  take-missing b now missing h = ground arith

  waited_level :
      (level missing token full waited : ℕ)
      → level + missing ≡ token
      → missing ≤ waited
      → token ≤ full
      → token ≤ min full (level + waited)
  waited_level level missing token full waited h k m = omega arith

  take_local-allowed :
      (key : Text) (now : ℕ) (bs : Buckets)
      → capacity s ≤ idle_seconds * s.hz * s.per_minute
      → DistinctKeys bs
      → one s ≤ level s key now bs
      → (take_local s key now bs).0 ≡ allowed
  unfolding take_local
  take_local-allowed key now bs enough d h =
      take-allowed (or_full s now (get_bucket key (prune s now bs))) now
        (subst (λ l. one s ≤ l) (sym (level-prune s key now bs d enough)) h)

  -- A refused caller that waits until its bucket holds a token is let through.
  pub take_local-retry :
      (key : Text) (now later missing : ℕ) (bs : Buckets)
      → capacity s ≤ idle_seconds * s.hz * s.per_minute
      → one s ≤ capacity s
      → DistinctKeys bs
      → (take_local s key now bs).0 ≡ retry_after missing
      → missing ≤ (later - now) * s.per_minute
      → (take_local s key later (take_local s key now bs).1).0 ≡ allowed
  unfolding take_local
  take_local-retry key now later missing bs enough room d refused waited =
      let kept = prune s now bs in
      let b = or_full s now (get_bucket key kept) in
      let (left, short) = take-missing b now missing refused in
      let found : get_bucket key (set_bucket key (take s b now).1 kept) ≡ some (take s b now).1 =
        ground (arith, get_bucket-set_bucket key key (take s b now).1 kept, text_eq_refl key) in
      take_local-allowed key later (take_local s key now bs).1 enough
        (take_local-DistinctKeys s enough key now bs d)
        (subst (λ o. one s ≤ refilled s (or_full s later o) later) (sym (found ∙ ap some left))
          (waited_level (refilled s b now) missing (one s) (capacity s)
            ((later - now) * s.per_minute) short waited room))
