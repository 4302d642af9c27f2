-- ===== src/Indexing/Chunker/Cover.antt =====
-- What the chunks of a file are: each is a cut of its lines, and no line is lost.
use Prim.Native.String.{String}
use automated_software_engin.Prelude.{
  ℕ, zero, suc, ◌+◌, ◌-◌, ◌<◌, ◌≤◌, ◌≡◌, refl, sym, ap, subst, ◌∙◌, inl, inr, true, false, ◌&&◌,
  ◌||◌, Bool, some, List, [], ◌∷◌, ◌++◌, length, take, drop, get_elem?, any_of, is_empty, leb, ltb,
  if◌then◌else◌, Text, strip, arith, Bool-cases, Option-cases,
}
use automated_software_engin.Indexing.Chunker.{
  Chunk, chunk_lines, overlap_lines, join_lines, slice, kept, one_chunk, window_at, windows, window,
  Node, is_definition, definition_types, gap_chunks, own_chunks, ast_chunks, grammar_of, TreeSitter,
  unix, split_lines, parsed_chunks, chunk_file,
}
use automated_software_engin.Indexing.Chunker.Blank.{
  is_blank, strip-nil, join_lines-blank, get_elem?-drop, get_elem?-take, get_elem?-lt,
}

-- A line number that some chunk spans.
abbrev pub covers : ℕ → List Chunk → Bool
covers n chunks = any_of (λ c. leb c.start_line n && leb n c.end_line) chunks

covers-append : (n : ℕ) (xs ys : List Chunk) → covers n (xs ++ ys) ≡ covers n xs || covers n ys
covers-append n [] ys = refl
covers-append n (x ∷ xs) ys = ground (arith, covers-append n xs ys)

covers-append_left : (n : ℕ) (xs ys : List Chunk) → covers n xs ≡ true → covers n (xs ++ ys) ≡ true
covers-append_left n xs ys h = ground (arith, covers-append n xs ys)

covers-append_right : (n : ℕ) (xs ys : List Chunk) → covers n ys ≡ true → covers n (xs ++ ys) ≡ true
covers-append_right n xs ys h = ground (arith, covers-append n xs ys)

-- A chunk of lines that are not all blank is kept.
kept-covers :
    (c : Chunk) (ls : List Text) (i n : ℕ) (line : Text)
    → c.content ≡ strip (join_lines ls)
    → get_elem? ls i ≡ some line
    → is_blank line ≡ false
    → c.start_line ≤ n
    → n ≤ c.end_line
    → covers n (kept c) ≡ true
kept-covers c ls i n line h e b low high = elim (Bool-cases (is_empty c.content)) [
  | inl gone ↦
      let nothing : c.content ≡ [] = ground (arith, gone) in
      absurd (cc (join_lines-blank ls i line (strip-nil (join_lines ls) (sym h ∙ nothing)) e))
  | inr there ↦ ground (arith, there)
]

module _ (segment : List Text) (first : ℕ) (path language : Text) where
  window_at-covers :
      (index i : ℕ) (line : Text)
      → index ≤ i
      → i < index + chunk_lines
      → get_elem? segment i ≡ some line
      → is_blank line ≡ false
      → covers (first + i) (kept (window_at segment first path language index)) ≡ true
  window_at-covers index i line low high e b =
      let moved : index + (i - index) ≡ i = omega arith in
      let found : get_elem? (take chunk_lines (drop index segment)) (i - index) ≡ some line =
        get_elem?-take chunk_lines (drop index segment) (i - index) (omega arith)
        ∙ (get_elem?-drop index segment (i - index) ∙ (ap (get_elem? segment) moved ∙ e)) in
      kept-covers (window_at segment first path language index)
        (take chunk_lines (drop index segment)) (i - index) (first + i) line refl found b
        (omega arith)
        (omega (arith, get_elem?-lt (take chunk_lines (drop index segment)) (i - index) found))

  windows-covers :
      (fuel index i : ℕ) (line : Text)
      → length segment ≤ fuel + index
      → index ≤ i
      → get_elem? segment i ≡ some line
      → is_blank line ≡ false
      → covers (first + i) (windows segment first path language fuel index) ≡ true
  unfolding windows
  windows-covers zero index i line f low e b = absurd (omega (arith, get_elem?-lt segment i e))
  windows-covers (suc fuel) index i line f low e b =
      let inside = get_elem?-lt segment i e in
      elim (Bool-cases (ltb i (index + chunk_lines))) [
        | inl near ↦ ground (
          arith,
          inside,
          near,
          covers-append (first + i) (kept (window_at segment first path language index)) (
              if leb (length segment) (index + chunk_lines)
              then []
              else windows segment first path language fuel
                  (index + (chunk_lines - overlap_lines))),
          window_at-covers index i line low (ground (arith, near)) e b,
        )
        | inr far ↦
            let later =
              windows-covers fuel (index + (chunk_lines - overlap_lines)) i line (omega arith)
                (ground (arith, far)) e b in
            ground (
              arith,
              inside,
              far,
              later,
              covers-append (first + i) (kept (window_at segment first path language index)) (
                  windows segment first path language fuel (index + (chunk_lines - overlap_lines))),
            )
      ]

-- The lines of a file from `first` to `last`, by their numbers from 1.
get_elem?-slice :
    (lines : List Text) (first last n : ℕ)
    → 1 ≤ first
    → first ≤ n
    → n ≤ last
    → get_elem? (slice lines first last) (n - first) ≡ get_elem? lines (n - 1)
get_elem?-slice lines first last n one low high =
    let moved : first - 1 + (n - first) ≡ n - 1 = omega arith in
    get_elem?-take (last - (first - 1)) (drop (first - 1) lines) (n - first) (omega arith)
    ∙ (get_elem?-drop (first - 1) lines (n - first) ∙ ap (get_elem? lines) moved)

module _ (lines : List Text) (path language : Text) (n : ℕ) (line : Text)
    (here : get_elem? lines (n - 1) ≡ some line) (b : is_blank line ≡ false) where
  window-covers :
      (first last : ℕ)
      → 1 ≤ first
      → first ≤ n
      → n ≤ last
      → covers n (window lines first last path language) ≡ true
  unfolding window
  window-covers first last one low high =
      let moved : first + (n - first) ≡ n = omega arith in
      subst (λ k. covers k (window lines first last path language) ≡ true) moved
        (windows-covers (slice lines first last) first path language
          (length (slice lines first last)) 0 (n - first) line (omega arith) (omega arith)
          (get_elem?-slice lines first last n one low high ∙ here) b)

  one_chunk-covers :
      (first last : ℕ)
      → 1 ≤ first
      → first ≤ n
      → n ≤ last
      → covers n (one_chunk lines first last path language) ≡ true
  unfolding one_chunk
  one_chunk-covers first last one low high =
      kept-covers _ (slice lines first last) (n - first) n line refl
        (get_elem?-slice lines first last n one low high ∙ here) b low high

  own_chunks-covers :
      (types : List String) (start_line end_line : ℕ)
      → 1 ≤ start_line
      → start_line ≤ n
      → n ≤ end_line
      → covers n (own_chunks lines path language types start_line end_line) ≡ true
  own_chunks-covers types start_line end_line one low high = ground (
    arith,
    window-covers start_line end_line one low high,
    one_chunk-covers start_line end_line one low high,
  )

  gap_chunks-covers :
      (types : List String) (cursor start_line : ℕ)
      → 1 ≤ cursor
      → cursor ≤ n
      → n < start_line
      → covers n (gap_chunks lines path language types cursor start_line) ≡ true
  gap_chunks-covers types cursor start_line one low high =
      ground (arith, window-covers cursor (start_line - 1) one low (omega arith))

  module _ (types : List String) where
    abbrev gap : ℕ → Node → List Chunk
    gap cursor node = gap_chunks lines path language types cursor (node.start_row + 1)

    abbrev own : Node → List Chunk
    own node = own_chunks lines path language types (node.start_row + 1) (node.end_row + 1)

    -- From the cursor on no line is lost, wherever the nodes stand.
    ast_chunks-covers :
        (cursor : ℕ) (nodes : List Node)
        → 1 ≤ cursor
        → cursor ≤ n
        → n ≤ length lines
        → covers n (ast_chunks lines path language types cursor nodes) ≡ true
    unfolding ast_chunks
    ast_chunks-covers cursor [] one low high =
        ground (arith, window-covers cursor (length lines) one low high)
    ast_chunks-covers cursor (node ∷ nodes) one low high =
        let past = ast_chunks lines path language types (node.end_row + 1 + 1) nodes in
        elim (Bool-cases (is_definition node types)) [
          | inr other ↦ rw other (ast_chunks-covers cursor nodes one low high)
          | inl definition ↦ rw definition (elim (Bool-cases (ltb n (node.start_row + 1))) [
            | inl before ↦ covers-append_left n (gap cursor node) (own node ++ past) (
                gap_chunks-covers types cursor (node.start_row + 1) one low
                  (ground (arith, before)))
            | inr on ↦
                covers-append_right n (gap cursor node) (own node ++ past)
                  (elim (Bool-cases (leb n (node.end_row + 1))) [
                    | inl inside ↦ covers-append_left n (own node) past (
                        own_chunks-covers types (node.start_row + 1) (node.end_row + 1)
                          (omega arith) (ground (arith, on)) (ground (arith, inside)))
                    | inr behind ↦ covers-append_right n (own node) past (
                        ast_chunks-covers (node.end_row + 1 + 1) nodes (omega arith)
                          (ground (arith, behind)) high)
                  ])
          ])
        ]

  parsed_chunks-covers :
      (parse : TreeSitter) (text suffix : Text)
      → 1 ≤ n
      → n ≤ length lines
      → is_empty (parsed_chunks parse text suffix path language lines) ≡ false
      → covers n (parsed_chunks parse text suffix path language lines) ≡ true
  unfolding parsed_chunks
  parsed_chunks-covers parse text suffix one last h = elim (Option-cases (grammar_of suffix)) [
    | inl e ↦ absurd (ground (arith, e, h))
    | inr (grammar, e) ↦ elim (Option-cases (parse grammar text)) [
      | inl k ↦ absurd (ground (arith, e, k, h))
      | inr (nodes, k) ↦
          rw (e, parsed_chunks)
            (rw k (ast_chunks-covers (definition_types grammar) 1 nodes (omega arith) one last))
    ]
  ]

-- No line of a file is lost: whatever the parser answers, or if it fails, each line that is not
-- blank is spanned by a chunk.
pub chunk_file-covers :
    (parse : TreeSitter) (suffix raw path language : Text) (n : ℕ) (line : Text)
    → 1 ≤ n
    → get_elem? (split_lines (unix raw)) (n - 1) ≡ some line
    → is_blank line ≡ false
    → covers n (chunk_file parse suffix raw path language) ≡ true
unfolding chunk_file
chunk_file-covers parse suffix raw path language n line one here b =
    let lines = split_lines (unix raw) in
    let last : n ≤ length lines = omega (arith, get_elem?-lt lines (n - 1) here) in
    let whole =
      window-covers lines path language n line here b 1 (length lines) (omega arith) one last in
    let chunks = parsed_chunks parse (unix raw) suffix path language lines in
    elim (Bool-cases (leb (length lines) chunk_lines)) [
      | inl small ↦ rw (small, chunk_file) whole
      | inr large ↦ elim (Bool-cases (is_empty chunks)) [
        | inl nothing ↦ rw (large, chunk_file) (rw nothing whole)
        | inr some_chunks ↦
            rw (large, chunk_file)
              (rw some_chunks (
                parsed_chunks-covers lines path language n line here b parse (unix raw) suffix one
                  last some_chunks))
      ]
    ]
