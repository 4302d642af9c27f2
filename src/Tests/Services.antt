-- ===== src/Tests/Services.antt =====
-- The theorems on the search index and on the rate limiter at concrete inputs.
use automated_software_engin.Prelude.{
  Option, ◌+◌, ◌*◌, ◌≤◌, ◌≡◌, refl, true, false, none, some, List, [], ◌∷◌, ◌++◌, map, Text, codes,
  is_space, arith, All,
}
use automated_software_engin.Errors.{Exc, Reply, ok}
use automated_software_engin.Indexing.Chunker.{TreeSitter, chunk_file, unix, split_lines}
use automated_software_engin.Indexing.Chunker.Cover.{covers, chunk_file-covers}
use automated_software_engin.Indexing.Chunker.Blank.{is_blank}
use automated_software_engin.Indexing.Chunker.Cuts.{IsCut, chunk_file-AreCuts}
use automated_software_engin.Indexing.Indexer.{
  Entry, Index, IndexStatus, iter_source_files, index_repository,
}
use automated_software_engin.Indexing.Indexer.Rebuild.{IsIndexOf}
use automated_software_engin.Indexing.Indexer.Refine.{index_repository-IsIndexOf}
use automated_software_engin.RateLimit.{
  Settings, Buckets, Request, caller_key, call, passed, one, take, or_full, take_local, prune,
}
use automated_software_engin.RateLimit.Bound.{admitted, admitted-bound}
use automated_software_engin.RateLimit.Retry.{call-retry}
use automated_software_engin.RateLimit.Shared.{
  Limiter, answered, Clocks, IsPast, take_shared, kept_bucket, AreWritten, take_shared-decides,
}

-- Two lines, and a parser that fails.
abbrev raw : Text
raw = codes "a" ++ 13 ∷ 10 ∷ codes "b"

abbrev broken : TreeSitter
broken grammar text = none

chunk_file-covers_example :
    covers 2 (chunk_file broken (codes ".py") raw (codes "a.py") (codes "python")) ≡ true
unfolding is_space
chunk_file-covers_example =
    chunk_file-covers broken (codes ".py") raw (codes "a.py") (codes "python") 2 (codes "b")
      (omega arith) refl blank
  where
    blank : is_blank (codes "b") ≡ false
    blank = refl

chunk_file-AreCuts_example :
    All
      (IsCut (split_lines (unix raw)) (codes "a.py") (codes "python"))
      (chunk_file broken (codes ".py") raw (codes "a.py") (codes "python"))
chunk_file-AreCuts_example =
    chunk_file-AreCuts broken (codes ".py") raw (codes "a.py") (codes "python")

-- A digest that is the content, a model whose vector of a text is the text.
abbrev same : Text → Text
same text = text

same_content : (a b : Text) → same a ≡ same b → a ≡ b
same_content a b h = h

abbrev embed : List Text → Reply (List Text)
embed ts = ok (map same ts)

embed_each : (ts : List Text) → embed ts ≡ ok (map same ts)
embed_each ts = refl

abbrev suffix_of : Text → Text
suffix_of path = codes ".py"

abbrev reason : Exc → Text
reason e = codes "no clone"

abbrev empty_index : Index Text
empty_index = record {
  status = IndexStatus.pending;
  status_detail = none;
  chunks = [];
  edges = [];
  files = [];
}

abbrev entries : List Entry
entries =
    record { rel_path = codes "a.py"; parts = []; is_file = true; size = 4; bytes = raw }
    ∷ record { rel_path = codes "b.py"; parts = []; is_file = true; size = 1; bytes = codes "c" }
    ∷ []

empty-IsIndexOf :
    IsIndexOf same same suffix_of broken same (iter_source_files suffix_of []) empty_index
unfolding iter_source_files
empty-IsIndexOf = record { rows = λ p. refl; hashes = λ p. refl }

index_repository-IsIndexOf_example :
    let next =
      (index_repository same same suffix_of broken embed (ok (entries, [])) reason empty_index).1 in
    IsIndexOf same same suffix_of broken same (iter_source_files suffix_of entries) next
    × (next.status ≡ IndexStatus.indexed)
    × (next.edges ≡ [])
index_repository-IsIndexOf_example =
    index_repository-IsIndexOf same same suffix_of broken same_content same embed embed_each reason
      [] entries [] empty_index (refl, (refl, tt)) empty-IsIndexOf

-- Six a minute, two at once, ten ticks a second.
abbrev settings : Settings
settings = record { per_minute = 6; burst = 2; hz = 10 }

abbrev ann : Text
ann = codes "user:ann"

admitted-bound_example :
    admitted settings ann ((ann, 0) ∷ (codes "ip:b", 3) ∷ (ann, 5) ∷ (ann, 9) ∷ []) []
    ≤ 2 * one settings + 10 * 6
admitted-bound_example =
    admitted-bound settings ann ((ann, 0) ∷ (codes "ip:b", 3) ∷ (ann, 5) ∷ (ann, 9) ∷ []) 0 10 []
      (omega arith) tt (omega arith)

abbrev spent : Buckets
spent = (ann, record { tokens = 540; last_refill = 3 }) ∷ []

abbrev verify : Text → Option Text
verify token = some (codes "ann")

abbrev request : Request
request = record {
  is_http = true;
  path = codes "/v1/runs";
  headers = (codes "authorization", codes "Bearer t") ∷ [];
  client = none;
}

call-retry_example :
    (call settings verify request 23 (call settings verify request 3 spent).1).0 ≡ passed
unfolding call take_local prune take caller_key
call-retry_example =
    call-retry settings verify request 3 23 1 spent (omega arith) (omega arith) (omega arith)
      (refl, tt) refl (omega arith)

abbrev fresh : Limiter
fresh = record { redis = λ k. none; fallback = []; warned = false }

fresh-AreWritten : AreWritten settings fresh
fresh-AreWritten k e h = cc

fresh-IsPast : IsPast settings 3 (fresh.redis ann)
fresh-IsPast e h = cc

-- A process that has just been started.
abbrev clocks : Clocks
clocks = record { redis_time = 3; wall = 3; monotonic = 0 }

take_shared-decides_example :
    (((take_shared settings answered ann clocks fresh).0
        ≡ (take settings (or_full settings 3 none) 3).0)
      × ((take_shared settings answered ann clocks fresh).1.fallback ≡ []))
    × ((kept_bucket ((take_shared settings answered ann clocks fresh).1.redis ann)
          ≡ some (take settings (or_full settings 3 none) 3).1)
        × AreWritten settings (take_shared settings answered ann clocks fresh).1)
take_shared-decides_example =
    take_shared-decides settings answered ann 3 0 fresh (omega arith) fresh-AreWritten fresh-IsPast
