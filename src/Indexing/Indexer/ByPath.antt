-- ===== src/Indexing/Indexer/ByPath.antt =====
-- The rows of one path, among all rows of an index.
use automated_software_engin.Prelude.{
  ◌≡◌, refl, sym, subst, ap, ◌∙◌, inl, inr, Bool, true, false, not, ◌&&◌, ◌||◌, Option, none, some,
  List, [], ◌∷◌, ◌++◌, map, arith, filter_by, find_by, if◌then◌else◌, Bool-cases, is_some, All,
  Text, text_eq, text_eq→eq, text_in,
}
use automated_software_engin.Indexing.Indexer.{Source, Fingerprint, ChunkRow, hash_of, paths}

abbrev pub chunks_at : {V : Type 0} → Text → List (ChunkRow V) → List (ChunkRow V)
chunks_at p rows = filter_by (λ r. text_eq r.chunk.path p) rows

abbrev pub find_source : Text → List Source → Option Source
find_source p sources = find_by (λ s. text_eq p s.rel_path) sources

-- No two sources have one path.
abbrev pub DistinctPaths : List Source → Type 0
DistinctPaths [] = Unit
DistinctPaths (s ∷ ss) = (text_in s.rel_path (paths ss) ≡ false) × DistinctPaths ss

pub chunks_at-append :
    {V : Type 0} (p : Text) (xs ys : List (ChunkRow V))
    → chunks_at p (xs ++ ys) ≡ chunks_at p xs ++ chunks_at p ys
chunks_at-append p [] ys = refl
chunks_at-append p (r ∷ rs) ys = ground (arith, chunks_at-append p rs ys)

-- Equal texts are in the same lists.
text_in-eq : (s p : Text) (ts : List Text) → text_eq s p ≡ true → text_in s ts ≡ text_in p ts
text_in-eq s p ts h = ap (λ t. text_in t ts) (text_eq→eq s p h)

pub chunks_at-kept :
    {V : Type 0} (p : Text) (stale : List Text) (rows : List (ChunkRow V))
    → chunks_at p (filter_by (λ r. not (text_in r.chunk.path stale)) rows)
      ≡ (if text_in p stale then [] else chunks_at p rows)
chunks_at-kept p stale [] = ground arith
chunks_at-kept p stale (r ∷ rs) =
    ground (arith, chunks_at-kept p stale rs, text_in-eq r.chunk.path p stale)

pub text_in-append :
    (p : Text) (xs ys : List Text) → text_in p (xs ++ ys) ≡ text_in p xs || text_in p ys
text_in-append p [] ys = refl
text_in-append p (x ∷ xs) ys = ground (arith, text_in-append p xs ys)

pub find_source-some :
    (P : Source → Type 0) (p : Text) (ss : List Source) (s : Source)
    → find_source p ss ≡ some s
    → All P ss
    → P s × (p ≡ s.rel_path)
find_source-some P p [] s h a = cc
find_source-some P p (t ∷ ts) s h a = elim (Bool-cases (text_eq p t.rel_path)) [
  | inl e ↦
      let same : t ≡ s = ground (arith, e, h) in
      (subst P same a.0, text_eq→eq p t.rel_path e ∙ ap (λ (v : Source). v.rel_path) same)
  | inr e ↦ find_source-some P p ts s (ground (arith, e, h)) a.1
]

pub text_in-paths :
    (p : Text) (ss : List Source) → text_in p (paths ss) ≡ is_some (find_source p ss)
text_in-paths p [] = refl
text_in-paths p (s ∷ ss) = ground (arith, text_in-paths p ss)

find_source-none :
    (p : Text) (ss : List Source) → text_in p (paths ss) ≡ false → find_source p ss ≡ none
find_source-none p ss h = ground (arith, text_in-paths p ss)

-- What is picked for the source of a path, if there is one.
abbrev pub at_source {ℓ} : {A : Type ℓ} → Option Source → (Source → A) → A → A
at_source none f a = a
at_source (some s) f a = f s

module _ (q : Source → Bool) (p : Text) where
  pub text_in-changed :
      (ss : List Source)
      → DistinctPaths ss
      → text_in p (paths (filter_by q ss)) ≡ at_source (find_source p ss) q false
  text_in-changed [] d = refl
  text_in-changed (s ∷ ss) d = elim (Bool-cases (text_eq p s.rel_path)) [
    | inl e ↦
        let alone : text_in p (paths ss) ≡ false =
          subst (λ t. text_in t (paths ss) ≡ false) (sym (text_eq→eq p s.rel_path e)) d.0 in
        ground (arith, e, text_in-changed ss d.1, find_source-none p ss alone)
    | inr e ↦ ground (arith, e, text_in-changed ss d.1)
  ]

  pub hash_of-changed :
      (digest : Text → Text) (ss : List Source)
      → DistinctPaths ss
      → hash_of
          (map (λ s. record { path = s.rel_path; content_hash = digest s.bytes }) (filter_by q ss))
          p
        ≡ at_source (find_source p ss) (λ s. if q s then some (digest s.bytes) else none) none
  hash_of-changed digest [] d = refl
  hash_of-changed digest (s ∷ ss) d = elim (Bool-cases (text_eq p s.rel_path)) [
    | inl e ↦
        let alone : text_in p (paths ss) ≡ false =
          subst (λ t. text_in t (paths ss) ≡ false) (sym (text_eq→eq p s.rel_path e)) d.0 in
        ground (arith, e, hash_of-changed digest ss d.1, find_source-none p ss alone)
    | inr e ↦ ground (arith, e, hash_of-changed digest ss d.1)
  ]

pub hash_of-append :
    (p : Text) (xs ys : List Fingerprint)
    → hash_of (xs ++ ys) p ≡ elim (hash_of xs p) [ none ↦ hash_of ys p | some h ↦ some h ]
hash_of-append p [] ys = refl
hash_of-append p (f ∷ fs) ys = ground (arith, hash_of-append p fs ys)

pub hash_of-kept :
    (p : Text) (stale : List Text) (fs : List Fingerprint)
    → hash_of (filter_by (λ f. not (text_in f.path stale)) fs) p
      ≡ (if text_in p stale then none else hash_of fs p)
hash_of-kept p stale [] = ground arith
hash_of-kept p stale (f ∷ fs) = ground (arith, hash_of-kept p stale fs, text_in-eq p f.path stale)

pub text_in-deleted :
    (p : Text) (known : List Text) (fs : List Fingerprint)
    → text_in p (map (λ f. f.path) (filter_by (λ f. not (text_in f.path known)) fs))
      ≡ is_some (hash_of fs p) && not (text_in p known)
text_in-deleted p known [] = refl
text_in-deleted p known (f ∷ fs) =
    ground (arith, text_in-deleted p known fs, text_in-eq p f.path known)
