-- ===== src/Security/Dependencies.antt =====
-- apps/engine/src/engine/security/dependency_scanner.py. The regular
-- expressions, `str.lower` and the packaging library are parameters. The skipped lines and the
-- name of a file are read as in the scan for secrets: the two files hold the same code.
use automated_software_engin.Security.Lines.{splitlines}
use automated_software_engin.Prelude.{
  ℕ, ◌+◌, Bool, true, false, not, ◌&&◌, ◌||◌, Option, none, some, List, [], ◌∷◌, filter_by, drop,
  any_of, is_empty, ◌==◌, if◌then◌else◌, Text, codes, text_eq, strip, has_prefix, has_suffix,
}
use Prim.Native.String.{String}
use automated_software_engin.Security.Secrets.{strip_diff_path, is_header}

pub data Ecosystem : Type 0 where
  pypi npm : Ecosystem

pub data Severity : Type 0 where
  low medium high : Severity

pub record Advisory : Type 0 where
  pub ecosystem : Ecosystem
  pub package_name : String
  pub specifiers : String
  pub advisory_id : String
  pub severity : Severity
  pub summary : String

pub record DependencyFinding : Type 0 where
  pub advisory : Advisory
  pub version : Text
  pub path : Text
  pub line : ℕ

abbrev advise :
    Ecosystem
    → (package_name specifiers advisory_id : String) → Severity
    → (summary : String) → Advisory
advise ecosystem package_name specifiers advisory_id severity summary = record {
  ecosystem = ecosystem;
  package_name = package_name;
  specifiers = specifiers;
  advisory_id = advisory_id;
  severity = severity;
  summary = summary;
}

-- _ADVISORIES
unfoldable pub advisories : List Advisory
advisories =
    advise pypi "requests" "<2.31.0" "CVE-2023-32681" medium
      "leaks Proxy-Authorization header on redirect"
    ∷ advise pypi "urllib3" "<1.26.5" "CVE-2021-33503" high "denial of service via crafted URL"
    ∷ advise pypi "jinja2" "<2.11.3" "CVE-2020-28493" medium "regular-expression denial of service"
    ∷ advise pypi "pyyaml" "<5.4" "CVE-2020-14343" high "arbitrary code execution via full_load"
    ∷ advise pypi "flask" "<2.2.5" "CVE-2023-30861" high
        "possible disclosure of a cached response to the wrong client"
    ∷ advise npm "lodash" "<4.17.21" "CVE-2021-23337" high "command injection via template"
    ∷ advise npm "minimist" "<1.2.6" "CVE-2021-44906" high "prototype pollution"
    ∷ advise npm "axios" "<0.21.2" "CVE-2021-3749" high "server-side request forgery"
    ∷ advise npm "node-fetch" "<2.6.7" "CVE-2022-0235" medium
        "leaks sensitive headers/cookie on cross-host redirect"
    ∷ []

abbrev same_ecosystem : Ecosystem → Ecosystem → Bool
same_ecosystem pypi pypi = true
same_ecosystem npm npm = true
same_ecosystem _ _ = false

-- `_INDEX.get((ecosystem, normalized))`, an empty list for none.
unfoldable pub advisories_of : Ecosystem → Text → List Advisory
unfolding advisories
advisories_of ecosystem name =
    filter_by (λ a. same_ecosystem a.ecosystem ecosystem && text_eq (codes a.package_name) name)
      advisories

pub data Kind : Type 0 where
  pip package_json package_lock : Kind

-- What the regular expressions and the packaging library answer: a pin of requirements.txt, the
-- first pair of a JSON line, the package that a lock file's key names, a range without its
-- operator, a name with its separators as dashes; a version, and whether it is in a specifier set,
-- `none` where the set is not valid.
pub record Patterns (V : Type 0) : Type 0 where
  pub lower : Text → Text
  pub pip_pin : Text → Option (Text × Text)
  pub json_pair : Text → Option (Text × Text)
  pub lock_key : Text → Option Text
  pub without_range : Text → Text
  pub with_dashes : Text → Text
  pub version : Text → Option V
  pub contains : String → V → Option Bool
  pub hunk : Text → Option ℕ

-- `path.rsplit("/", 1)[-1]`: what stands behind the last slash.
unfoldable pub base_name : Text → Text
base_name [] = []
base_name (c ∷ s) =
    let rest = base_name s in if any_of (λ d. d == 47) s then rest else if c == 47 then s else c ∷ s

-- `raw[1:] if raw and raw[0] in "+ " else raw`
abbrev pub content_of : Text → Text
content_of [] = []
content_of (c ∷ s) = if c == 43 || c == 32 then s else c ∷ s

module _ {V : Type 0} (p : Patterns V) where
  -- `_manifest_kind`
  unfoldable pub manifest_kind : (path : Text) → Option Kind
  unfolding base_name
  manifest_kind path =
      let name = p.lower (base_name path) in
      if text_eq name (codes "package-lock.json")
      then some package_lock
      else if text_eq name (codes "package.json")
      then some package_json
      else if has_suffix (codes "requirements.txt") name || text_eq name (codes "requirements.txt")
      then some pip
      else none

  -- `_npm_base_version`
  abbrev pub npm_base_version : Text → Text
  npm_base_version value = p.without_range (strip value)

  -- `_normalize`
  abbrev pub normalize : Ecosystem → Text → Text
  normalize pypi name = p.with_dashes (p.lower (strip name))
  normalize npm name = p.lower (strip name)

  -- `_extract`
  unfoldable pub extract : Kind → (content lock_pending_name : Text) → Option (Text × Text)
  extract pip content lock_pending_name = p.pip_pin content
  extract package_json content lock_pending_name = elim (p.json_pair content) [
    | none ↦ none
    | some pair ↦ some (pair.0, npm_base_version pair.1)
  ]
  extract package_lock content lock_pending_name = elim (p.json_pair content) [
    | none ↦ none
    | some pair ↦
        if not (text_eq pair.0 (codes "version")) || is_empty lock_pending_name
        then none
        else some (lock_pending_name, npm_base_version pair.1)
  ]

  abbrev pub ecosystem_of : Kind → Ecosystem
  ecosystem_of pip = pypi
  ecosystem_of package_json = npm
  ecosystem_of package_lock = npm

  -- The loop of `_match` over the advisories of a package.
  unfoldable pub first_match :
      List Advisory → V → (version path : Text) → (line : ℕ) → Option DependencyFinding
  first_match [] parsed version path line = none
  first_match (a ∷ later) parsed version path line =
      let rest = first_match later parsed version path line in
      elim (p.contains a.specifiers parsed) [
        | none ↦ rest
        | some inside ↦
            if inside
            then some (record { advisory = a; version = version; path = path; line = line })
            else rest
      ]

  -- `_match`
  unfoldable pub match_advisory :
      Kind → (name version path : Text) → (line : ℕ) → Option DependencyFinding
  unfolding first_match advisories_of
  match_advisory kind name version path line = elim (p.version version) [
    | none ↦ none
    | some parsed ↦
        first_match (advisories_of (ecosystem_of kind) (normalize (ecosystem_of kind) name)) parsed
          version path line
  ]

  abbrev pub is_lock : Kind → Bool
  is_lock package_lock = true
  is_lock _ = false

  -- The name that a line of a lock file leaves pending.
  abbrev pub pending_after : Kind → (content lock_pending_name : Text) → Text
  pending_after kind content lock_pending_name =
      if is_lock kind
      then elim (p.lock_key content) [ none ↦ lock_pending_name | some name ↦ name ]
      else lock_pending_name

  -- What an added line is found to pin.
  unfoldable pub check_line :
      Kind → (content lock_pending_name path : Text) → (line : ℕ) → Option DependencyFinding
  unfolding extract match_advisory
  check_line kind content lock_pending_name path line =
      elim (extract kind content lock_pending_name) [
        | none ↦ none
        | some pair ↦ match_advisory kind pair.0 pair.1 path line
      ]

  abbrev pub noted : Option DependencyFinding → List DependencyFinding → List DependencyFinding
  noted none findings = findings
  noted (some f) findings = f ∷ findings

  -- The loop of `scan_diff`.
  unfoldable pub scan_from :
      (path : Text)
      → (kind : Option Kind) → (new_line : ℕ) → (lock_pending_name : Text) → List Text
      → List DependencyFinding
  unfolding check_line manifest_kind
  scan_from path kind new_line lock_pending_name [] = []
  scan_from path kind new_line lock_pending_name (raw ∷ lines) =
      let renamed = strip_diff_path (drop 4 raw) in
      let next_file = scan_from renamed (manifest_kind renamed) new_line [] lines in
      let same = scan_from path kind new_line lock_pending_name lines in
      let jump = λ (n : ℕ). scan_from path kind n lock_pending_name lines in
      let content = content_of raw in
      let onward = λ (name : Text). scan_from path kind (new_line + 1) name lines in
      if has_prefix (codes "+++ ") raw
      then next_file
      else if is_header raw
      then same
      else elim (p.hunk raw) [
        | some n ↦ jump n
        | none ↦ elim kind [
          | none ↦ same
          | some k ↦
              if has_prefix (codes "+") raw
              then noted
                  (check_line k content (pending_after k content lock_pending_name) path new_line)
                  (onward (pending_after k content lock_pending_name))
              else if has_prefix (codes "-") raw
              then same
              else onward (pending_after k content lock_pending_name)
        ]
      ]

  -- `scan_diff`
  unfoldable pub scan_diff : (diff : Text) → List DependencyFinding
  unfolding scan_from splitlines
  scan_diff diff = scan_from [] none 0 [] (splitlines diff)
