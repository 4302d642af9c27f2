-- ===== src/Indexing/Indexer.antt =====
-- apps/engine/src/engine/indexing/indexer.py and `iter_source_files` of chunker.py: the search
-- index of one repository, rebuilt for the files that changed. Git, the file system, the digest,
-- the parser and the embedding model are parameters; the rows are those of the repository.
pub mod ByPath
pub mod Rebuild
pub mod Refine
use automated_software_engin.Prelude.{
  ℕ, zero, suc, Bool, true, false, not, ◌||◌, Option, none, some, List, [], ◌∷◌, ◌++◌, map,
  filter_by, find_by, length, take, drop, any_of, is_empty, ltb, if◌then◌else◌, Text, text_eq,
  text_in,
}
use Prim.Native.String.{String}
use automated_software_engin.Errors.{Exc, external, Reply, ok, raise}
use automated_software_engin.Indexing.Chunker.{
  Chunk, TreeSitter, chunk_file, language_of, is_one_of, max_file_bytes, max_files,
}

-- SKIP_DIRS
abbrev pub skip_dirs : List String
skip_dirs =
    ".git" ∷ "node_modules" ∷ ".venv" ∷ "venv" ∷ "__pycache__" ∷ "dist" ∷ "build" ∷ ".next"
    ∷ ".turbo" ∷ ".workspaces" ∷ []

-- An entry of the clone, in the sorted order of `root.rglob`.
pub record Entry : Type 0 where
  pub rel_path : Text
  pub parts : List Text
  pub is_file : Bool
  pub size : ℕ
  pub bytes : Text

-- What `iter_source_files` yields, with the bytes of the file.
pub record Source : Type 0 where
  pub rel_path : Text
  pub language : Text
  pub bytes : Text

-- IndexedFile
pub record Fingerprint : Type 0 where
  pub path : Text
  pub content_hash : Text

pub record Edge : Type 0 where
  pub source : Text
  pub target : Text

-- CodeChunk
pub record ChunkRow (V : Type 0) : Type 0 where
  pub chunk : Chunk
  pub embedding : V

pub data IndexStatus : Type 0 where
  pending indexed index_failed : IndexStatus

-- A repository's rows: its own, its chunks, its import edges and its fingerprints.
pub record Index (V : Type 0) : Type 0 where
  pub status : IndexStatus
  pub status_detail : Option Text
  pub chunks : List (ChunkRow V)
  pub edges : List Edge
  pub files : List Fingerprint

-- EMBED_BATCH
abbrev pub embed_batch : ℕ
embed_batch = 64

-- `file.suffix.lower()`, of the path.
module _ (suffix_of : Text → Text) where
  -- The language of an entry that counts as a source file.
  unfoldable pub selected : Entry → Option Text
  selected e =
      if any_of (λ part. is_one_of part skip_dirs) e.parts || not e.is_file
      then none
      else if ltb max_file_bytes e.size
      then none
      else language_of (suffix_of e.rel_path)

  -- The loop of `iter_source_files`, with the number of files that it may still yield.
  unfoldable pub sources_within : ℕ → List Entry → List Source
  sources_within left [] = []
  sources_within zero (e ∷ es) = []
  sources_within (suc left) (e ∷ es) =
      let next = sources_within left es in
      let on = sources_within (suc left) es in
      elim (selected e) [
        | none ↦ on
        | some language ↦
            record { rel_path = e.rel_path; language = language; bytes = e.bytes } ∷ next
      ]

  unfoldable pub iter_source_files : List Entry → List Source
  unfolding sources_within
  iter_source_files entries = sources_within max_files entries

-- `previous_hashes.get(rel)`
abbrev pub hash_of : List Fingerprint → Text → Option Text
hash_of [] path = none
hash_of (f ∷ fs) path =
    let rest = hash_of fs path in if text_eq path f.path then some f.content_hash else rest

abbrev pub is_hash : Option Text → Text → Bool
is_hash none digest = false
is_hash (some hash) digest = text_eq hash digest

abbrev pub paths : List Source → List Text
paths sources = map (λ s. s.rel_path) sources

abbrev pub is_changed : (digest : Text → Text) → List Fingerprint → Source → Bool
is_changed digest previous s = not (is_hash (hash_of previous s.rel_path) (digest s.bytes))

-- The files that vanished: `set(previous_hashes) - set(current_hashes)`.
abbrev pub deleted_paths : List Fingerprint → List Source → List Text
deleted_paths previous sources =
    map (λ f. f.path) (filter_by (λ f. not (text_in f.path (paths sources))) previous)

module _ (decode suffix_of : Text → Text) (parse : TreeSitter) where
  -- `chunk_file(file, rel_path, language)`
  abbrev pub chunks_of : Source → List Chunk
  chunks_of s = chunk_file parse (suffix_of s.rel_path) (decode s.bytes) s.rel_path s.language

  abbrev pub new_chunks : List Source → List Chunk
  new_chunks [] = []
  new_chunks (s ∷ ss) = chunks_of s ++ new_chunks ss

-- `zip(new_chunks, vectors, strict=True)`
abbrev pub zip_strict : {V : Type 0} → List Chunk → List V → Option (List (ChunkRow V))
zip_strict [] [] = some []
zip_strict (c ∷ cs) (v ∷ vs) = elim (zip_strict cs vs) [
  | none ↦ none
  | some rows ↦ some (record { chunk = c; embedding = v } ∷ rows)
]
zip_strict _ _ = none

-- The last transaction of `_build_index`, with `_apply_fingerprints`.
abbrev pub replace_stale :
    {V : Type 0}
    → (digest : Text → Text) → List Source
    → (changed : List Source) → List Edge
    → List (ChunkRow V)
    → Index V
    → Index V
replace_stale digest sources changed edges rows index =
    let stale = paths changed ++ deleted_paths index.files sources in
    record index {
      chunks = filter_by (λ r. not (text_in r.chunk.path stale)) index.chunks ++ rows;
      edges = edges;
      files =
          filter_by (λ f. not (text_in f.path stale)) index.files
          ++ map (λ s. record { path = s.rel_path; content_hash = digest s.bytes }) changed;
    }

module _ {V : Type 0} (embed : List Text → Reply (List V)) where
  -- `_embed`, with a round for each text as fuel.
  unfoldable pub embed_all : (fuel : ℕ) → List Text → Reply (List V)
  embed_all zero contents = ok []
  embed_all (suc fuel) [] = ok []
  embed_all (suc fuel) (c ∷ cs) =
      let rest = embed_all fuel (drop embed_batch (c ∷ cs)) in
      elim (embed (take embed_batch (c ∷ cs))) [
        | raise x ↦ raise x
        | ok vs ↦ elim rest [ raise x ↦ raise x | ok ws ↦ ok (vs ++ ws) ]
      ]

module _ {V : Type 0} (digest : Text → Text) (decode : Text → Text) (suffix_of : Text → Text)
    (parse : TreeSitter) (embed : List Text → Reply (List V)) where
  -- `_build_index`, of the sources and import edges of a clone.
  unfoldable pub build_index : List Source → List Edge → Index V → Reply (Index V)
  unfolding embed_all
  build_index sources edges index =
      let changed = filter_by (is_changed digest index.files) sources in
      let chunks = new_chunks decode suffix_of parse changed in
      let contents = map (λ c. c.content) chunks in
      elim (embed_all embed (length contents) contents) [
        | raise x ↦ raise x
        | ok vectors ↦ elim (zip_strict chunks vectors) [
          | none ↦ raise (external [])
          | some rows ↦ ok (replace_stale digest sources changed edges rows index)
        ]
      ]

  -- `index_repository`, once the repository's row was found: `clone` answers the entries and the
  -- import edges of the clone or raises; `reason` is `str(exc)[:500] or type(exc).__name__`.
  unfoldable pub index_repository :
      (clone : Reply (List Entry × List Edge))
      → (reason : Exc → Text) → Index V
      → Reply (Unit {0}) × Index V
  unfolding build_index
  index_repository clone reason index = elim clone [
    | raise x ↦ (raise x, record index { status = index_failed; status_detail = some (reason x) })
    | ok (entries, edges) ↦ elim (build_index (iter_source_files suffix_of entries) edges index) [
      | raise x ↦ (raise x, record index { status = index_failed; status_detail = some (reason x) })
      | ok index' ↦ (ok tt, record index' { status = indexed; status_detail = none })
    ]
  ]
