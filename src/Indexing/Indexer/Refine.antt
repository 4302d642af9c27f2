-- ===== src/Indexing/Indexer/Refine.antt =====
-- `index_repository` against the index of a full build.
use mathlib.Core.List.{map-append}
use automated_software_engin.Prelude.{
  ℕ, zero, suc, ◌≤◌, ◌≡◌, refl, sym, ap, ◌∙◌, inl, inr, false, some, List, [], ◌∷◌, ◌++◌, map,
  arith, Option-cases, All, Text, text_in, length, length-drop, take, drop,
}
use automated_software_engin.Errors.{Exc, Reply, ok}
use automated_software_engin.Indexing.Chunker.{Chunk, TreeSitter, language_of, max_files}
use automated_software_engin.Indexing.Indexer.{
  Source, Entry, Edge, Index, IndexStatus, embed_batch, paths, embed_all, zip_strict, build_index,
  selected, sources_within, iter_source_files, index_repository,
}
use automated_software_engin.Indexing.Indexer.ByPath.{DistinctPaths}
use automated_software_engin.Indexing.Indexer.Rebuild.{
  all_new, changed_of, built, IsIndexOf, built-IsIndexOf,
}

take-drop {ℓ} : {A : Type ℓ} (n : ℕ) (xs : List A) → take n xs ++ drop n xs ≡ xs
take-drop zero xs = refl
take-drop (suc n) [] = refl
take-drop (suc n) (x ∷ xs) = ap (λ ys. x ∷ ys) (take-drop n xs)

-- No two entries of a clone have one path.
abbrev pub entry_paths : List Entry → List Text
entry_paths es = map (λ e. e.rel_path) es

abbrev pub DistinctEntries : List Entry → Type 0
DistinctEntries [] = Unit
DistinctEntries (e ∷ es) = (text_in e.rel_path (entry_paths es) ≡ false) × DistinctEntries es

module _ (digest decode suffix_of : Text → Text) where
  selected-language :
      (e : Entry) (language : Text)
      → selected suffix_of e ≡ some language
      → language_of (suffix_of e.rel_path) ≡ some language
  unfolding selected
  selected-language e language h = ground arith

  not_within :
      (p : Text) (left : ℕ) (es : List Entry)
      → text_in p (entry_paths es) ≡ false
      → text_in p (paths (sources_within suffix_of left es)) ≡ false
  unfolding sources_within
  not_within p left [] h = refl
  not_within p zero (e ∷ es) h = refl
  not_within p (suc left) (e ∷ es) h =
      ground (arith, not_within p left es, not_within p (suc left) es)

  sources_within-DistinctPaths :
      (left : ℕ) (es : List Entry)
      → DistinctEntries es
      → DistinctPaths (sources_within suffix_of left es)
  unfolding sources_within
  sources_within-DistinctPaths left [] d = tt
  sources_within-DistinctPaths zero (e ∷ es) d = tt
  sources_within-DistinctPaths (suc left) (e ∷ es) d = elim (Option-cases (selected suffix_of e)) [
    | inl h ↦ rw (h, DistinctPaths, sources_within) (sources_within-DistinctPaths (suc left) es d.1)
    | inr (l, h) ↦
        rw (h, DistinctPaths, sources_within)
          (not_within e.rel_path left es d.0, sources_within-DistinctPaths left es d.1)
  ]

  sources_within-AreSelected :
      (left : ℕ) (es : List Entry)
      → All
          (λ (s : Source). language_of (suffix_of s.rel_path) ≡ some s.language)
          (sources_within suffix_of left es)
  unfolding sources_within
  sources_within-AreSelected left [] = tt
  sources_within-AreSelected zero (e ∷ es) = tt
  sources_within-AreSelected (suc left) (e ∷ es) = elim (Option-cases (selected suffix_of e)) [
    | inl h ↦ rw (h, All, sources_within) (sources_within-AreSelected (suc left) es)
    | inr (l, h) ↦
        rw (h, All, sources_within) (selected-language e l h, sources_within-AreSelected left es)
  ]

module _ {V : Type 0} (vector : Text → V) (embed : List Text → Reply (List V))
    (pointwise : (ts : List Text) → embed ts ≡ ok (map vector ts)) where
  -- The batches together embed each text once, in order.
  embed_all-map :
      (fuel : ℕ) (ts : List Text) → length ts ≤ fuel → embed_all embed fuel ts ≡ ok (map vector ts)
  unfolding embed_all
  embed_all-map zero [] h = refl
  embed_all-map zero (t ∷ ts) h = absurd (omega arith)
  embed_all-map (suc fuel) [] h = refl
  embed_all-map (suc fuel) (t ∷ ts) h =
      let rest =
        embed_all-map fuel (drop embed_batch (t ∷ ts))
          (omega (arith, length-drop embed_batch (t ∷ ts))) in
      let whole =
        sym (map-append vector (take embed_batch (t ∷ ts)) (drop embed_batch (t ∷ ts)))
        ∙ ap (map vector) (take-drop embed_batch (t ∷ ts)) in
      rw (pointwise (take embed_batch (t ∷ ts)), embed_all) (rw rest (ap ok whole))

module _ {V : Type 0} (vector : Text → V) where
  zip_strict-map :
      (cs : List Chunk)
      → zip_strict cs (map vector (map (λ c. c.content) cs))
        ≡ some (map (λ c. record { chunk = c; embedding = vector c.content }) cs)
  zip_strict-map [] = refl
  zip_strict-map (c ∷ cs) = rw (zip_strict-map cs)

module _ {V : Type 0} (digest decode suffix_of : Text → Text) (parse : TreeSitter)
    (collision_free : (a b : Text) → digest a ≡ digest b → a ≡ b) (vector : Text → V)
    (embed : List Text → Reply (List V))
    (pointwise : (ts : List Text) → embed ts ≡ ok (map vector ts)) where
  build_index-built :
      (ss : List Source) (edges : List Edge) (index : Index V)
      → build_index digest decode suffix_of parse embed ss edges index
        ≡ ok (built digest decode suffix_of parse vector ss edges index)
  unfolding build_index
  build_index-built ss edges index =
      let cs =
        all_new digest decode suffix_of parse vector
          (changed_of digest decode suffix_of parse vector ss index) in
      let contents = map (λ (c : Chunk). c.content) cs in
      rw
        (embed_all-map vector embed pointwise (length contents) contents (omega arith), build_index)
        (rw (zip_strict-map vector cs))

  -- With a digest that tells contents apart and a model that embeds each text by itself, an
  -- incremental index is the index of a full build: if the rows were those of an earlier clone,
  -- they are now those of this clone, path by path, the repository is indexed, and its edges are
  -- the new ones.
  pub index_repository-IsIndexOf :
      (reason : Exc → Text) (earlier entries : List Entry) (edges : List Edge) (index : Index V)
      → DistinctEntries entries
      → IsIndexOf digest decode suffix_of parse vector (iter_source_files suffix_of earlier) index
      → let next =
          (index_repository digest decode suffix_of parse embed
            (ok (entries, edges))
            reason
            index).1 in
        IsIndexOf digest decode suffix_of parse vector (iter_source_files suffix_of entries) next
        × (next.status ≡ IndexStatus.indexed)
        × (next.edges ≡ edges)
  unfolding index_repository iter_source_files
  index_repository-IsIndexOf reason earlier entries edges index distinct was =
      let ss = iter_source_files suffix_of entries in
      let now =
        built-IsIndexOf digest decode suffix_of parse vector collision_free
          (iter_source_files suffix_of earlier) ss index
          (sources_within-AreSelected digest decode suffix_of max_files earlier)
          (sources_within-AreSelected digest decode suffix_of max_files entries)
          (sources_within-DistinctPaths digest decode suffix_of max_files entries distinct) was
          edges in
      rw (build_index-built ss edges index, index_repository)
        (record { rows = now.rows; hashes = now.hashes }, refl, refl)
