-- ===== src/Indexing.antt =====
-- apps/engine/src/engine/indexing: what is indexed of a repository, and how it is searched.
pub mod Chunker
pub mod Indexer
