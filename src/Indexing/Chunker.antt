-- ===== src/Indexing/Chunker.antt =====
-- apps/engine/src/engine/indexing/chunker.py: the chunks of a repository's files. The parser and
-- the file system are parameters; a file is its suffix in lower case and its text.
pub mod Blank
pub mod Cover
pub mod Cuts
use Prim.Native.String.{String}
use automated_software_engin.Prelude.{
  ℕ, zero, suc, ◌+◌, ◌-◌, Bool, true, false, not, ◌||◌, Option, none, some, List, [], ◌∷◌, ◌++◌,
  map, length, take, drop, any_of, is_empty, leb, ltb, ◌==◌, if◌then◌else◌, Text, codes, text_eq,
  strip,
}

-- CHUNK_LINES, OVERLAP_LINES, MAX_DEFINITION_LINES, MAX_FILE_BYTES, MAX_FILES
abbrev pub chunk_lines : ℕ
chunk_lines = 60

abbrev pub overlap_lines : ℕ
overlap_lines = 10

abbrev pub max_definition_lines : ℕ
max_definition_lines = 200

abbrev pub max_file_bytes : ℕ
max_file_bytes = 512_000

abbrev pub max_files : ℕ
max_files = 2_000

-- `value in names`
abbrev pub is_one_of : Text → List String → Bool
is_one_of value names = any_of (λ n. text_eq value (codes n)) names

-- `AST_GRAMMARS.get(suffix)`
abbrev pub Grammar : Type 0
Grammar = Text

unfoldable pub grammar_of : (suffix : Text) → Option Grammar
grammar_of suffix =
    if is_one_of suffix (".py" ∷ [])
    then some (codes "python")
    else if is_one_of suffix (".js" ∷ ".jsx" ∷ ".mjs" ∷ [])
    then some (codes "javascript")
    else if is_one_of suffix (".ts" ∷ [])
    then some (codes "typescript")
    else if is_one_of suffix (".tsx" ∷ [])
    then some (codes "tsx")
    else if is_one_of suffix (".java" ∷ [])
    then some (codes "java")
    else if is_one_of suffix (".kt" ∷ ".kts" ∷ [])
    then some (codes "kotlin")
    else none

-- `LANGUAGES.get(suffix)`
unfoldable pub language_of : (suffix : Text) → Option Text
language_of suffix =
    if is_one_of suffix (".py" ∷ [])
    then some (codes "python")
    else if is_one_of suffix (".ts" ∷ ".tsx" ∷ [])
    then some (codes "typescript")
    else if is_one_of suffix (".js" ∷ ".jsx" ∷ ".mjs" ∷ [])
    then some (codes "javascript")
    else if is_one_of suffix (".java" ∷ [])
    then some (codes "java")
    else if is_one_of suffix (".kt" ∷ ".kts" ∷ [])
    then some (codes "kotlin")
    else if is_one_of suffix (".go" ∷ [])
    then some (codes "go")
    else if is_one_of suffix (".rs" ∷ [])
    then some (codes "rust")
    else if is_one_of suffix (".md" ∷ [])
    then some (codes "markdown")
    else if is_one_of suffix (".json" ∷ [])
    then some (codes "json")
    else if is_one_of suffix (".yml" ∷ ".yaml" ∷ [])
    then some (codes "yaml")
    else if is_one_of suffix (".toml" ∷ [])
    then some (codes "toml")
    else if is_one_of suffix (".html" ∷ [])
    then some (codes "html")
    else if is_one_of suffix (".css" ∷ [])
    then some (codes "css")
    else if is_one_of suffix (".sql" ∷ [])
    then some (codes "sql")
    else if is_one_of suffix (".sh" ∷ [])
    then some (codes "shell")
    else if is_one_of suffix (".ps1" ∷ [])
    then some (codes "powershell")
    else if is_one_of suffix (".txt" ∷ [])
    then some (codes "text")
    else none

-- `_DEFINITION_TYPES.get(grammar, set())`
unfoldable pub definition_types : Grammar → List String
definition_types grammar =
    if is_one_of grammar ("python" ∷ [])
    then "function_definition" ∷ "decorated_definition" ∷ "class_definition" ∷ []
    else if is_one_of grammar ("javascript" ∷ [])
    then "function_declaration" ∷ "generator_function_declaration" ∷ "class_declaration" ∷ []
    else if is_one_of grammar ("typescript" ∷ "tsx" ∷ [])
    then "function_declaration" ∷ "generator_function_declaration" ∷ "class_declaration"
      ∷ "abstract_class_declaration" ∷ "interface_declaration" ∷ "enum_declaration"
      ∷ "type_alias_declaration" ∷ []
    else if is_one_of grammar ("java" ∷ [])
    then "class_declaration" ∷ "interface_declaration" ∷ "enum_declaration" ∷ "record_declaration"
      ∷ "annotation_type_declaration" ∷ []
    else if is_one_of grammar ("kotlin" ∷ [])
    then "class_declaration" ∷ "function_declaration" ∷ "object_declaration" ∷ []
    else []

pub record Chunk : Type 0 where
  pub path : Text
  pub language : Text
  pub start_line : ℕ
  pub end_line : ℕ
  pub content : Text

-- `"\n".join(lines)`
unfoldable pub join_lines : List Text → Text
join_lines [] = []
join_lines (l ∷ ls) = let rest = join_lines ls in if is_empty ls then l else l ++ 10 ∷ rest

-- `lines[first - 1 : last]`
abbrev pub slice : List Text → (first last : ℕ) → List Text
slice lines first last = take (last - (first - 1)) (drop (first - 1) lines)

abbrev pub kept : Chunk → List Chunk
kept c = if is_empty c.content then [] else c ∷ []

-- `_one_chunk`
unfoldable pub one_chunk : List Text → (first last : ℕ) → (path language : Text) → List Chunk
one_chunk lines first last path language = kept (record {
  path = path;
  language = language;
  start_line = first;
  end_line = last;
  content = strip (join_lines (slice lines first last));
})

module _ (segment : List Text) (first : ℕ) (path language : Text) where
  abbrev pub window_at : ℕ → Chunk
  window_at index = record {
    path = path;
    language = language;
    start_line = first + index;
    end_line = first + index + length (take chunk_lines (drop index segment)) - 1;
    content = strip (join_lines (take chunk_lines (drop index segment)));
  }

  -- The `while` loop of `_window`, on fuel.
  unfoldable pub windows : (fuel : ℕ) → (index : ℕ) → List Chunk
  windows zero index = []
  windows (suc fuel) index =
      let more = windows fuel (index + (chunk_lines - overlap_lines)) in
      let rest = if leb (length segment) (index + chunk_lines) then [] else more in
      if ltb index (length segment) then kept (window_at index) ++ rest else []

-- `_window`: a window starts at each round, so the lines of the segment are fuel enough.
unfoldable pub window : List Text → (first last : ℕ) → (path language : Text) → List Chunk
window lines first last path language =
    windows (slice lines first last) first path language (length (slice lines first last)) 0

-- A node of the syntax tree: its type, the types of its named children, and its rows, from 0.
pub record Node : Type 0 where
  pub kind : Text
  pub children : List Text
  pub start_row : ℕ
  pub end_row : ℕ

-- `_is_definition`
unfoldable pub is_definition : Node → List String → Bool
is_definition node types =
    if is_one_of node.kind types
    then true
    else if is_one_of node.kind ("export_statement" ∷ [])
    then any_of (λ c. is_one_of c types) node.children
    else false

module _ (lines : List Text) (path language : Text) (types : List String) where
  -- What stands before a definition, from the cursor on.
  abbrev pub gap_chunks : (cursor start_line : ℕ) → List Chunk
  gap_chunks cursor start_line =
      if ltb cursor start_line then window lines cursor (start_line - 1) path language else []

  -- The definition itself.
  abbrev pub own_chunks : (start_line end_line : ℕ) → List Chunk
  own_chunks start_line end_line =
      if ltb max_definition_lines (end_line + 1 - start_line)
      then window lines start_line end_line path language
      else one_chunk lines start_line end_line path language

  -- The loop of `_chunk_by_ast` and what follows it.
  unfoldable pub ast_chunks : (cursor : ℕ) → List Node → List Chunk
  ast_chunks cursor [] =
      if leb cursor (length lines) then window lines cursor (length lines) path language else []
  ast_chunks cursor (node ∷ nodes) =
      let past = ast_chunks (node.end_row + 1 + 1) nodes in
      let on = ast_chunks cursor nodes in
      if is_definition node types
      then gap_chunks cursor (node.start_row + 1)
        ++ (own_chunks (node.start_row + 1) (node.end_row + 1) ++ past)
      else on

-- The top-level nodes of a text, or an exception of the parser.
abbrev pub TreeSitter : Type 0
TreeSitter = Grammar → Text → Option (List Node)

-- `.replace("\r\n", "\n")` and `.replace("\r", "\n")`
abbrev pub without_crlf : Text → Text
without_crlf [] = []
without_crlf (c ∷ []) = c ∷ []
without_crlf (c ∷ d ∷ s) =
    let rest = without_crlf s in
    let on = without_crlf (d ∷ s) in
    if c == 13 then (if d == 10 then 10 ∷ rest else c ∷ on) else c ∷ on

abbrev pub unix : Text → Text
unix text = map (λ c. if c == 13 then 10 else c) (without_crlf text)

-- `text.split("\n")`: the first line, and the others.
abbrev pub first_line : Text → Text
first_line [] = []
first_line (c ∷ s) = let rest = first_line s in if c == 10 then [] else c ∷ rest

abbrev pub later_lines : Text → List Text
later_lines [] = []
later_lines (c ∷ s) = let rest = later_lines s in if c == 10 then first_line s ∷ rest else rest

abbrev pub split_lines : Text → List Text
split_lines text = first_line text ∷ later_lines text

-- What the syntax tree gives: nothing without a grammar or on an exception.
unfoldable pub parsed_chunks :
    TreeSitter → (text suffix path language : Text) → List Text → List Chunk
parsed_chunks parse text suffix path language lines = elim (grammar_of suffix) [
  | none ↦ []
  | some grammar ↦ elim (parse grammar text) [
    | none ↦ []
    | some nodes ↦ ast_chunks lines path language (definition_types grammar) 1 nodes
  ]
]

-- `_chunk_file`, of the text as it was read.
unfoldable pub chunk_file : TreeSitter → (suffix raw path language : Text) → List Chunk
chunk_file parse suffix raw path language =
    let text = unix raw in
    let lines = split_lines text in
    let whole = window lines 1 (length lines) path language in
    let parsed = parsed_chunks parse text suffix path language lines in
    if leb (length lines) chunk_lines then whole else if is_empty parsed then whole else parsed
