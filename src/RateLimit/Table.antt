-- ===== src/RateLimit/Table.antt =====
-- The table of buckets: what setting and pruning leave at each key.
use automated_software_engin.Prelude.{
  ℕ, ◌-◌, ◌*◌, ◌≤◌, ◌≡◌, refl, sym, subst, ap, ◌∙◌, inl, inr, Bool, true, false, not, Option, none,
  some, [], ◌∷◌, arith, filter_by, length, leb, ltb, if◌then◌else◌, Bool-cases, Text, text_eq,
  text_eq_refl, text_eq→eq,
}
use automated_software_engin.RateLimit.{
  Settings, TokenBucket, Buckets, get_bucket, set_bucket, capacity, refilled, or_full, prune,
  prune_above, idle_seconds,
}

abbrev pub DistinctKeys : Buckets → Type 0
DistinctKeys [] = Unit
DistinctKeys ((k, b) ∷ bs) = (get_bucket k bs ≡ none) × DistinctKeys bs

same_key : (j k l : Text) → text_eq k l ≡ true → text_eq j k ≡ text_eq j l
same_key j k l h = ap (text_eq j) (text_eq→eq k l h)

key_apart : (j k l : Text) → text_eq k l ≡ false → text_eq j k ≡ true → text_eq j l ≡ false
key_apart j k l h e = subst (λ t. text_eq t l ≡ false) (sym (text_eq→eq j k e)) h

pub get_bucket-set_bucket :
    (j k : Text) (b : TokenBucket) (bs : Buckets)
    → get_bucket j (set_bucket k b bs) ≡ (if text_eq j k then some b else get_bucket j bs)
get_bucket-set_bucket j k b [] = refl
get_bucket-set_bucket j k b ((l, c) ∷ bs) = elim (Bool-cases (text_eq k l)) [
  | inl e ↦ ground (arith, e, same_key j k l e)
  | inr e ↦ elim (Bool-cases (text_eq j k)) [
    | inl h ↦ ground (arith, e, h, key_apart j k l e h, get_bucket-set_bucket j k b bs)
    | inr h ↦ ground (arith, e, h, get_bucket-set_bucket j k b bs)
  ]
]

pub set_bucket-DistinctKeys :
    (k : Text) (b : TokenBucket) (bs : Buckets) → DistinctKeys bs → DistinctKeys (set_bucket k b bs)
set_bucket-DistinctKeys k b [] d = (refl, tt)
set_bucket-DistinctKeys k b ((l, c) ∷ bs) d = elim (Bool-cases (text_eq k l)) [
  | inl e ↦ rw e d
  | inr e ↦ rw e (alone e, set_bucket-DistinctKeys k b bs d.1)
]
  where
    alone : text_eq k l ≡ false → get_bucket l (set_bucket k b bs) ≡ none
    alone e = elim (Bool-cases (text_eq l k)) [
      | inl h ↦ cc (e, subst (λ t. text_eq t l ≡ true) (text_eq→eq l k h) (text_eq_refl l))
      | inr h ↦ ground (arith, h, get_bucket-set_bucket l k b bs, d)
    ]

module _ (p : TokenBucket → Bool) where
  get_bucket-filter_none :
      (k : Text) (bs : Buckets)
      → get_bucket k bs ≡ none
      → get_bucket k (filter_by (λ e. p e.1) bs) ≡ none
  get_bucket-filter_none k [] h = refl
  get_bucket-filter_none k ((l, c) ∷ bs) h = ground (arith, get_bucket-filter_none k bs)

  get_bucket-filter :
      (k : Text) (bs : Buckets)
      → DistinctKeys bs
      → get_bucket k (filter_by (λ e. p e.1) bs)
        ≡ elim (get_bucket k bs) [ none ↦ none | some b ↦ if p b then some b else none ]
  get_bucket-filter k [] d = refl
  get_bucket-filter k ((l, c) ∷ bs) d = elim (Bool-cases (text_eq k l)) [
    | inr e ↦ ground (arith, e, get_bucket-filter k bs d.1)
    | inl e ↦
        let alone = subst (λ t. get_bucket t bs ≡ none) (sym (text_eq→eq k l e)) d.0 in
        ground (arith, e, get_bucket-filter_none k bs alone)
  ]

  filter-DistinctKeys : (bs : Buckets) → DistinctKeys bs → DistinctKeys (filter_by (λ e. p e.1) bs)
  filter-DistinctKeys [] d = tt
  filter-DistinctKeys ((l, c) ∷ bs) d = elim (Bool-cases (p c)) [
    | inl e ↦ rw e (get_bucket-filter_none l bs d.0, filter-DistinctKeys bs d.1)
    | inr e ↦ rw e (filter-DistinctKeys bs d.1)
  ]

-- The tokens that a caller has, in parts.
abbrev pub level : Settings → Text → (now : ℕ) → Buckets → ℕ
level s key now bs = refilled s (or_full s now (get_bucket key bs)) now

pub prune-DistinctKeys :
    (s : Settings) (now : ℕ) (bs : Buckets) → DistinctKeys bs → DistinctKeys (prune s now bs)
unfolding prune
prune-DistinctKeys s now bs d = elim (Bool-cases (leb (length bs) prune_above)) [
  | inl e ↦ rw e d
  | inr e ↦
      rw e (filter-DistinctKeys (λ b. not (ltb (idle_seconds * s.hz) (now - b.last_refill))) bs d)
]

pub mul_mono : (a b c : ℕ) → a ≤ b → a * c ≤ b * c
mul_mono a b c h = grind arith

full_level : (s : Settings) (now : ℕ) → refilled s (or_full s now none) now ≡ capacity s
full_level s now = omega arith

-- A bucket that was idle for long enough is full.
idle_full :
    (s : Settings) (b : TokenBucket) (now : ℕ)
    → capacity s ≤ idle_seconds * s.hz * s.per_minute
    → ltb (idle_seconds * s.hz) (now - b.last_refill) ≡ true
    → refilled s b now ≡ capacity s
idle_full s b now enough idle =
    let long : idle_seconds * s.hz ≤ now - b.last_refill = ground (arith, idle) in
    let product : idle_seconds * s.hz * s.per_minute ≤ (now - b.last_refill) * s.per_minute =
      mul_mono (idle_seconds * s.hz) (now - b.last_refill) s.per_minute long in
    omega (arith, product)

-- Where the idle time refills a bucket, pruning takes no tokens and gives none.
pub level-prune :
    (s : Settings) (key : Text) (now : ℕ) (bs : Buckets)
    → DistinctKeys bs
    → capacity s ≤ idle_seconds * s.hz * s.per_minute
    → level s key now (prune s now bs) ≡ level s key now bs
unfolding prune
level-prune s key now bs d enough = elim (Bool-cases (leb (length bs) prune_above)) [
  | inl e ↦ let same : prune s now bs ≡ bs = rw (e, prune) in ap (level s key now) same
  | inr e ↦
      let same : prune s now bs ≡ filter_by (λ e. awake e.1) bs = rw (e, prune) in
      ap (level s key now) same
      ∙ (ap (λ o. refilled s (or_full s now o) now) (get_bucket-filter awake key bs d)
          ∙ go (get_bucket key bs))
]
  where
    awake : TokenBucket → Bool
    awake b = not (ltb (idle_seconds * s.hz) (now - b.last_refill))

    go :
        (o : Option TokenBucket)
        → refilled s
            (or_full s now (elim o [ none ↦ none | some b ↦ if awake b then some b else none ]))
            now
          ≡ refilled s (or_full s now o) now
    go none = refl
    go (some b) = elim (Bool-cases (ltb (idle_seconds * s.hz) (now - b.last_refill))) [
      | inr e ↦ rw e
      | inl e ↦ rw e (full_level s now ∙ sym (idle_full s b now enough e))
    ]
