-- ===== src/Indexing/Indexer/Rebuild.antt =====
-- An incremental index is the index that a full build would give.
use mathlib.Core.List.{map-append, append-nil}
use automated_software_engin.Prelude.{
  ◌≡◌, refl, sym, subst, ap, ◌∙◌, inl, inr, Bool, true, false, not, none, some, List, [], ◌∷◌, ◌++◌,
  map, arith, filter_by, if◌then◌else◌, Bool-cases, Option-cases, All, All-map, Text, text_eq,
  text_eq_refl, text_eq→eq, text_in, is_some,
}
use automated_software_engin.Indexing.Chunker.{Chunk, TreeSitter, language_of, unix, split_lines}
use automated_software_engin.Indexing.Chunker.Cuts.{IsCut, chunk_file-AreCuts}
use automated_software_engin.Indexing.Indexer.{
  Source, Edge, Fingerprint, ChunkRow, Index, hash_of, paths, is_changed, chunks_of, new_chunks,
  deleted_paths, replace_stale,
}
use automated_software_engin.Indexing.Indexer.ByPath.{
  chunks_at, find_source, DistinctPaths, chunks_at-append, chunks_at-kept, text_in-append,
  find_source-some, text_in-paths, at_source, text_in-changed, hash_of-changed, hash_of-append,
  hash_of-kept, text_in-deleted,
}

module _ {V : Type 0} (digest decode suffix_of : Text → Text) (parse : TreeSitter)
    (vector : Text → V) where
  -- A chunk with the vector of its text.
  abbrev pub row : Chunk → ChunkRow V
  row c = record { chunk = c; embedding = vector c.content }

  abbrev pub rows_of : Source → List (ChunkRow V)
  rows_of s = map row (chunks_of decode suffix_of parse s)

  abbrev pub all_new : List Source → List Chunk
  all_new ss = new_chunks decode suffix_of parse ss

  abbrev pub fingerprint : Source → Fingerprint
  fingerprint s = record { path = s.rel_path; content_hash = digest s.bytes }

  -- The index of some sources: at each path, what the source there gives, and nothing without one.
  pub record IsIndexOf (ss : List Source) (index : Index V) : Type 0 where
    pub rows : (p : Text) → chunks_at p index.chunks ≡ at_source (find_source p ss) rows_of []
    pub hashes :
        (p : Text)
        → hash_of index.files p ≡ at_source (find_source p ss) (λ s. some (digest s.bytes)) none

  chunks_at-one :
      (p path : Text) (cs : List Chunk)
      → All (λ (c : Chunk). c.path ≡ path) cs
      → chunks_at p (map row cs) ≡ (if text_eq path p then map row cs else [])
  chunks_at-one p path [] h = ground arith
  chunks_at-one p path (c ∷ cs) h =
      let same = ap (λ t. text_eq t p) h.0 in ground (arith, same, chunks_at-one p path cs h.1)

  chunks_at-source :
      (p : Text) (s : Source)
      → chunks_at p (rows_of s) ≡ (if text_eq s.rel_path p then rows_of s else [])
  chunks_at-source p s =
      let cs = chunks_of decode suffix_of parse s in
      chunks_at-one p s.rel_path cs (
        All-map
          (λ (c : Chunk) (h : IsCut (split_lines (unix (decode s.bytes))) s.rel_path s.language c).
            h.of_file.0)
          cs
          (chunk_file-AreCuts parse (suffix_of s.rel_path) (decode s.bytes) s.rel_path s.language))

  module _ (q : Source → Bool) (p : Text) where
    chunks_at-new :
        (ss : List Source)
        → DistinctPaths ss
        → chunks_at p (map row (all_new (filter_by q ss)))
          ≡ at_source (find_source p ss) (λ s. if q s then rows_of s else []) []
    chunks_at-new [] d = refl
    chunks_at-new (s ∷ ss) d = elim (Bool-cases (q s)) [
      | inr e ↦ elim (Bool-cases (text_eq p s.rel_path)) [
        | inr k ↦ ground (arith, e, k, chunks_at-new ss d.1)
        | inl k ↦ ground (arith, e, k, chunks_at-new ss d.1, alone k)
      ]
      | inl e ↦ rw e (
          ap (chunks_at p)
            (map-append row (chunks_of decode suffix_of parse s) (all_new (filter_by q ss)))
          ∙ (chunks_at-append p (rows_of s) (map row (all_new (filter_by q ss)))
              ∙ elim (Bool-cases (text_eq p s.rel_path)) [
                | inr k ↦ ground (arith, e, k, chunks_at-new ss d.1, chunks_at-source p s, other k)
                | inl k ↦ ground (
                  arith,
                  e,
                  k,
                  chunks_at-new ss d.1,
                  chunks_at-source p s,
                  alone k,
                  here k,
                  append-nil (rows_of s),
                )
              ]))
    ]
      where
        alone : text_eq p s.rel_path ≡ true → find_source p ss ≡ none
        alone k =
            let gone : text_in p (paths ss) ≡ false =
              subst (λ t. text_in t (paths ss) ≡ false) (sym (text_eq→eq p s.rel_path k)) d.0 in
            ground (arith, gone, text_in-paths p ss)

        here : text_eq p s.rel_path ≡ true → text_eq s.rel_path p ≡ true
        here k = subst (λ t. text_eq t p ≡ true) (text_eq→eq p s.rel_path k) (text_eq_refl p)

        other : text_eq p s.rel_path ≡ false → text_eq s.rel_path p ≡ false
        other k = elim (Bool-cases (text_eq s.rel_path p)) [
          | inr n ↦ n
          | inl y ↦ cc (
            k,
            subst (λ t. text_eq p t ≡ true) (sym (text_eq→eq s.rel_path p y)) (text_eq_refl p),
          )
        ]

  -- Sources with one path have one language.
  abbrev pub IsSelected : Source → Type 0
  IsSelected s = language_of (suffix_of s.rel_path) ≡ some s.language

  abbrev pub changed_of : List Source → Index V → List Source
  changed_of ss index = filter_by (is_changed digest index.files) ss

  -- The index after a build whose embedding succeeds.
  abbrev pub built : List Source → List Edge → Index V → Index V
  built ss edges index =
      replace_stale digest ss (changed_of ss index) edges (map row (all_new (changed_of ss index)))
        index

  -- The digest tells contents apart.
  module _ (collision_free : (a b : Text) → digest a ≡ digest b → a ≡ b) (old ss : List Source)
      (index : Index V) (selected_old : All IsSelected old) (selected_now : All IsSelected ss)
      (distinct : DistinctPaths ss) (was : IsIndexOf old index) where
    abbrev changed : List Source
    changed = changed_of ss index

    abbrev stale : List Text
    stale = paths changed ++ deleted_paths index.files ss

    -- A source that is not changed gives the rows that it gave before.
    same_rows :
        (p : Text) (s t : Source)
        → find_source p ss ≡ some s
        → find_source p old ≡ some t
        → is_changed digest index.files s ≡ false
        → (rows_of t ≡ rows_of s) × (digest t.bytes ≡ digest s.bytes)
    same_rows p s t here there e =
        let (fit, at_p) = find_source-some IsSelected p ss s here selected_now in
        let (fit', at_p') = find_source-some IsSelected p old t there selected_old in
        let path : t.rel_path ≡ s.rel_path = sym at_p' ∙ at_p in
        let found : hash_of index.files s.rel_path ≡ some (digest t.bytes) =
          subst (λ x. hash_of index.files x ≡ some (digest t.bytes)) at_p
            (ground (arith, was.hashes p, there)) in
        let one_digest : digest t.bytes ≡ digest s.bytes =
          text_eq→eq (digest t.bytes) (digest s.bytes) (ground (arith, found, e)) in
        let content = collision_free t.bytes s.bytes one_digest in
        let language : t.language ≡ s.language =
          cc (ap (λ x. language_of (suffix_of x)) path, fit, fit') in
        (
          ap rows_of (λ i. record { rel_path = path i; language = language i; bytes = content i }),
          one_digest,
        )

    -- A source that is not changed was there before.
    gone :
        (p : Text) (s : Source)
        → find_source p ss ≡ some s
        → find_source p old ≡ none
        → is_changed digest index.files s ≡ true
    gone p s here there =
        let at_p = (find_source-some IsSelected p ss s here selected_now).1 in
        let found : hash_of index.files s.rel_path ≡ none =
          subst (λ x. hash_of index.files x ≡ none) at_p (ground (arith, was.hashes p, there)) in
        ground (arith, found)

    -- Stale are the paths of changed sources, and those that vanished.
    stale_at :
        (p : Text)
        → text_in p stale
          ≡ at_source
              (find_source p ss)
              (is_changed digest index.files)
              (is_some (hash_of index.files p))
    stale_at p = ground (
      arith,
      text_in-append p (paths changed) (deleted_paths index.files ss),
      text_in-changed (is_changed digest index.files) p ss distinct,
      text_in-deleted p (paths ss) index.files,
      text_in-paths p ss,
    )

    module _ (edges : List Edge) where
      abbrev after : Index V
      after = built ss edges index

      rows_after : (p : Text) → chunks_at p after.chunks ≡ at_source (find_source p ss) rows_of []
      rows_after p =
          let q = is_changed digest index.files in
          let kept = chunks_at-kept p stale index.chunks in
          let new = chunks_at-new q p ss distinct in
          chunks_at-append p (filter_by (λ r. not (text_in r.chunk.path stale)) index.chunks)
            (map row (all_new changed))
          ∙ elim (Option-cases (find_source p ss)) [
            | inl e ↦ ground (arith, e, kept, new, stale_at p, was.rows p, was.hashes p)
            | inr (s, e) ↦ elim (Bool-cases (q s)) [
              | inl k ↦ ground (arith, e, k, kept, new, stale_at p)
              | inr k ↦ elim (Option-cases (find_source p old)) [
                | inl n ↦ ground (arith, e, k, n, kept, new, stale_at p, was.rows p, gone p s e n)
                | inr (t, n) ↦ ground (
                  arith,
                  e,
                  k,
                  n,
                  kept,
                  new,
                  stale_at p,
                  was.rows p,
                  same_rows p s t e n k,
                  append-nil (rows_of t),
                )
              ]
            ]
          ]

      hashes_after :
          (p : Text)
          → hash_of after.files p ≡ at_source (find_source p ss) (λ s. some (digest s.bytes)) none
      hashes_after p =
          let q = is_changed digest index.files in
          let kept = hash_of-kept p stale index.files in
          let new = hash_of-changed q p digest ss distinct in
          hash_of-append p (filter_by (λ f. not (text_in f.path stale)) index.files)
            (map fingerprint changed)
          ∙ elim (Option-cases (find_source p ss)) [
            | inl e ↦ ground (arith, e, kept, new, stale_at p)
            | inr (s, e) ↦ elim (Bool-cases (q s)) [
              | inl k ↦ ground (arith, e, k, kept, new, stale_at p)
              | inr k ↦ elim (Option-cases (find_source p old)) [
                | inl n ↦ cc (k, gone p s e n)
                | inr (t, n) ↦
                    ground
                      (arith, e, k, n, kept, new, stale_at p, was.hashes p, same_rows p s t e n k)
              ]
            ]
          ]

      pub built-IsIndexOf : IsIndexOf ss (built ss edges index)
      built-IsIndexOf = record { rows = rows_after; hashes = hashes_after }
