-- ===== src/Indexing/Chunker/Cuts.antt =====
-- Each chunk of a file is a cut of its lines.
use Prim.Native.String.{String}
use Prim.Native.Nat.{min}
use automated_software_engin.Prelude.{
  ℕ, zero, suc, ◌+◌, ◌-◌, ◌<◌, ◌≤◌, ◌≡◌, refl, sym, ap, ◌∙◌, inl, inr, false, List, [], ◌∷◌, length,
  length-take, take, drop, is_empty, leb, ltb, Text, strip, arith, Bool-cases, All, All-append,
  Option-cases,
}
use automated_software_engin.Indexing.Chunker.{
  Chunk, chunk_lines, overlap_lines, max_definition_lines, join_lines, slice, kept, one_chunk,
  window_at, windows, window, Node, is_definition, definition_types, gap_chunks, own_chunks,
  ast_chunks, grammar_of, TreeSitter, unix, split_lines, parsed_chunks, chunk_file,
}
use automated_software_engin.Indexing.Chunker.Blank.{
  drop-take, drop-drop, take-length-take, take-take,
}

-- A chunk of at most 200 lines that holds the text of its lines, stripped, which is not empty.
pub record IsCut (lines : List Text) (path language : Text) (c : Chunk) : Type 0 where
  pub of_file : (c.path ≡ path) × (c.language ≡ language)
  pub from_one : 1 ≤ c.start_line
  pub short : c.end_line < c.start_line + max_definition_lines
  pub text : c.content ≡ strip (join_lines (slice lines c.start_line c.end_line))
  pub said : is_empty c.content ≡ false

module _ (lines : List Text) (path language : Text) where
  abbrev AreCuts : List Chunk → Type 0
  AreCuts chunks = All (IsCut lines path language) chunks

  kept-AreCuts :
      (c : Chunk) → (is_empty c.content ≡ false → IsCut lines path language c) → AreCuts (kept c)
  kept-AreCuts c h = elim (Bool-cases (is_empty c.content)) [
    | inl e ↦ rw e tt
    | inr e ↦ rw e (h e, tt)
  ]

  one_chunk-AreCuts :
      (first last : ℕ)
      → 1 ≤ first
      → last < first + max_definition_lines
      → AreCuts (one_chunk lines first last path language)
  unfolding one_chunk
  one_chunk-AreCuts first last one short =
      kept-AreCuts _ (λ e. record {
        of_file = (refl, refl);
        from_one = one;
        short = short;
        text = refl;
        said = e;
      })

  -- A window over a slice is a slice.
  window_at-slice :
      (first last index : ℕ)
      → 1 ≤ first
      → let w = window_at (slice lines first last) first path language index in
        take chunk_lines (drop index (slice lines first last)) ≡ slice lines w.start_line w.end_line
  window_at-slice first last index one =
      let k = last - (first - 1) in
      let tail = drop (first - 1 + index) lines in
      let cut : take chunk_lines (drop index (slice lines first last))
          ≡ take (min chunk_lines (k - index)) tail =
        ap (take chunk_lines) (
          drop-take index k (drop (first - 1) lines)
          ∙ ap (take (k - index)) (drop-drop index (first - 1) lines))
        ∙ take-take chunk_lines (k - index) tail in
      let size = length (take chunk_lines (drop index (slice lines first last))) in
      let same : size ≡ length (take (min chunk_lines (k - index)) tail) = ap length cut in
      let from : first - 1 + index ≡ first + index - 1 = omega arith in
      let long : length (take (min chunk_lines (k - index)) tail)
          ≡ first + index + size - 1 - (first + index - 1) =
        omega (arith, same) in
      cut
      ∙ (sym (take-length-take (min chunk_lines (k - index)) tail)
          ∙ (ap (λ n. take n tail) long
              ∙ ap (λ n. take (first + index + size - 1 - (first + index - 1)) (drop n lines))
                  from))

  module _ (first last : ℕ) (one : 1 ≤ first) where
    windows-AreCuts :
        (fuel index : ℕ) → AreCuts (windows (slice lines first last) first path language fuel index)
    unfolding windows
    windows-AreCuts zero index = tt
    windows-AreCuts (suc fuel) index =
        let segment = slice lines first last in
        let w = window_at segment first path language index in
        let now = kept-AreCuts w (λ e. record {
          of_file = (refl, refl);
          from_one = omega arith;
          short = omega (arith, length-take chunk_lines (drop index segment));
          text = ap (λ ls. strip (join_lines ls)) (window_at-slice first last index one);
          said = e;
        }) in
        let later = windows-AreCuts fuel (index + (chunk_lines - overlap_lines)) in
        elim (Bool-cases (ltb index (length segment))) [
          | inr e ↦ rw e tt
          | inl e ↦ rw e (elim (Bool-cases (leb (length segment) (index + chunk_lines))) [
            | inl ends ↦ rw ends (All-append _ (kept w) [] now tt)
            | inr more ↦ rw more (All-append _ (kept w) _ now later)
          ])
        ]

    window-AreCuts : AreCuts (window lines first last path language)
    unfolding window
    window-AreCuts = windows-AreCuts (length (slice lines first last)) 0

  module _ (types : List String) where
    gap_chunks-AreCuts :
        (cursor start_line : ℕ)
        → 1 ≤ cursor
        → AreCuts (gap_chunks lines path language types cursor start_line)
    gap_chunks-AreCuts cursor start_line one = elim (Bool-cases (ltb cursor start_line)) [
      | inl e ↦ rw e (window-AreCuts cursor (start_line - 1) one)
      | inr e ↦ rw e tt
    ]

    own_chunks-AreCuts :
        (start_line end_line : ℕ)
        → 1 ≤ start_line
        → AreCuts (own_chunks lines path language types start_line end_line)
    own_chunks-AreCuts start_line end_line one =
        elim (Bool-cases (ltb max_definition_lines (end_line + 1 - start_line))) [
          | inl e ↦ rw e (window-AreCuts start_line end_line one)
          | inr e ↦ rw e (one_chunk-AreCuts start_line end_line one (ground (arith, e)))
        ]

    ast_chunks-AreCuts :
        (cursor : ℕ) (nodes : List Node)
        → 1 ≤ cursor
        → AreCuts (ast_chunks lines path language types cursor nodes)
    unfolding ast_chunks
    ast_chunks-AreCuts cursor [] one = elim (Bool-cases (leb cursor (length lines))) [
      | inl e ↦ rw e (window-AreCuts cursor (length lines) one)
      | inr e ↦ rw e tt
    ]
    ast_chunks-AreCuts cursor (node ∷ nodes) one = elim (Bool-cases (is_definition node types)) [
      | inr e ↦ rw e (ast_chunks-AreCuts cursor nodes one)
      | inl e ↦ rw e (
          All-append _ (gap_chunks lines path language types cursor (node.start_row + 1)) _
            (gap_chunks-AreCuts cursor (node.start_row + 1) one)
            (All-append _
              (own_chunks lines path language types (node.start_row + 1) (node.end_row + 1)) _
              (own_chunks-AreCuts (node.start_row + 1) (node.end_row + 1) (omega arith))
              (ast_chunks-AreCuts (node.end_row + 1 + 1) nodes (omega arith))))
    ]

  parsed_chunks-AreCuts :
      (parse : TreeSitter) (text suffix : Text)
      → AreCuts (parsed_chunks parse text suffix path language lines)
  unfolding parsed_chunks
  parsed_chunks-AreCuts parse text suffix = elim (Option-cases (grammar_of suffix)) [
    | inl e ↦ rw (e, parsed_chunks) tt
    | inr (grammar, e) ↦ elim (Option-cases (parse grammar text)) [
      | inl k ↦ rw (e, parsed_chunks) (rw k tt)
      | inr (nodes, k) ↦
          rw (e, parsed_chunks)
            (rw k (ast_chunks-AreCuts (definition_types grammar) 1 nodes (omega arith)))
    ]
  ]

-- Whatever the parser answers, each chunk of a file belongs to it, spans at most 200 lines, and
-- holds exactly the text of its lines, stripped, which is not empty.
pub chunk_file-AreCuts :
    (parse : TreeSitter) (suffix raw path language : Text)
    → All (IsCut (split_lines (unix raw)) path language) (chunk_file parse suffix raw path language)
unfolding chunk_file
chunk_file-AreCuts parse suffix raw path language =
    let lines = split_lines (unix raw) in
    let whole = window-AreCuts lines path language 1 (length lines) (omega arith) in
    let chunks = parsed_chunks parse (unix raw) suffix path language lines in
    elim (Bool-cases (leb (length lines) chunk_lines)) [
      | inl small ↦ rw (small, chunk_file) whole
      | inr large ↦ elim (Bool-cases (is_empty chunks)) [
        | inl nothing ↦ rw (large, chunk_file) (rw nothing whole)
        | inr some_chunks ↦
            rw (large, chunk_file)
              (rw some_chunks (parsed_chunks-AreCuts lines path language parse (unix raw) suffix))
      ]
    ]
