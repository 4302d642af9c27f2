-- ===== src/Security/Secrets.antt =====
-- apps/engine/src/engine/security/secrets_scanner.py. The regular
-- expressions are parameters: `search` answers the secret that a rule finds in a line (the quoted
-- value, for a labelled assignment), `hunk` the line number of a hunk header; so is `str.lower`.
use automated_software_engin.Security.Lines.{splitlines}
use automated_software_engin.Prelude.{
  ℕ, zero, suc, ◌+◌, ◌-◌, Bool, true, false, ◌||◌, Option, none, some, List, [], ◌∷◌, ◌++◌, any_of,
  length, take, drop, leb, ◌==◌, if◌then◌else◌, Text, codes, strip, has_prefix, has_part, min,
}
use Prim.Native.String.{String}

-- _RULES, in their order.
pub data Rule : Type 0 where
  private_key aws_access_key_id github_token github_pat google_api_key slack_token : Rule
  stripe_secret_key labelled_secret_assignment : Rule

abbrev pub rules : List Rule
rules =
    private_key ∷ aws_access_key_id ∷ github_token ∷ github_pat ∷ google_api_key ∷ slack_token
    ∷ stripe_secret_key ∷ labelled_secret_assignment ∷ []

abbrev pub is_labelled : Rule → Bool
is_labelled labelled_secret_assignment = true
is_labelled _ = false

pub record SecretFinding : Type 0 where
  pub rule : Rule
  pub path : Text
  pub line : ℕ
  pub redacted : Text

abbrev pub has_any : List String → Text → Bool
has_any parts text = any_of (λ part. has_part (codes part) text) parts

-- `_looks_like_placeholder`, with _PLACEHOLDER_HINTS.
unfoldable pub looks_like_placeholder : (lower : Text → Text) → Text → Bool
looks_like_placeholder lower value =
    if has_any
      ("example" ∷ "changeme" ∷ "your" ∷ "placeholder" ∷ "redacted" ∷ "dummy" ∷ "xxxx"
        ∷ "os.environ" ∷ "process.env" ∷ "getenv" ∷ [])
      (lower value)
    then true
    else has_any ("${" ∷ "<" ∷ "{{" ∷ "%(" ∷ []) value

abbrev pub stars : ℕ → Text
stars zero = []
stars (suc n) = 42 ∷ stars n

-- `_redact`
unfoldable pub redact : Text → Text
redact secret =
    if leb (length secret) 4 then stars 4 else take 4 secret ++ stars (min (length secret - 4) 8)

-- `path.split("\t", 1)[0]`
abbrev pub before_tab : Text → Text
before_tab [] = []
before_tab (c ∷ s) = let rest = before_tab s in if c == 9 then [] else c ∷ rest

-- `_strip_diff_path`
unfoldable pub strip_diff_path : Text → Text
strip_diff_path raw =
    let path = before_tab (strip raw) in
    if has_prefix (codes "a/") path || has_prefix (codes "b/") path then drop 2 path else path

-- The lines of a diff that say nothing about the new file.
abbrev pub is_header : Text → Bool
is_header raw =
    any_of (λ p. has_prefix (codes p) raw)
      ("--- " ∷ "diff --git" ∷ "index " ∷ "old mode" ∷ "new mode" ∷ [])

module _ (lower : Text → Text) (search : Rule → Text → Option Text) where
  -- The loop of `_scan_line`, over the rules that are left.
  unfoldable pub scan_rules : List Rule → (text path : Text) → (line : ℕ) → Option SecretFinding
  unfolding looks_like_placeholder redact
  scan_rules [] text path line = none
  scan_rules (rule ∷ rest) text path line =
      let later = scan_rules rest text path line in
      elim (search rule text) [
        | none ↦ later
        | some secret ↦
            if (if is_labelled rule then looks_like_placeholder lower secret else false)
            then none
            else some (record { rule = rule; path = path; line = line; redacted = redact secret })
      ]

  -- `_scan_line`
  unfoldable pub scan_line : (text path : Text) → (line : ℕ) → Option SecretFinding
  unfolding scan_rules
  scan_line text path line = scan_rules rules text path line

  abbrev pub noted : Option SecretFinding → List SecretFinding → List SecretFinding
  noted none findings = findings
  noted (some f) findings = f ∷ findings

  module _ (hunk : Text → Option ℕ) where
    -- The loop of `scan_diff`: the path and the number of the next line of the new file.
    unfoldable pub scan_from : (path : Text) → (new_line : ℕ) → List Text → List SecretFinding
    scan_from path new_line [] = []
    scan_from path new_line (raw ∷ lines) =
        let same = scan_from path new_line lines in
        let onward = scan_from path (new_line + 1) lines in
        let renamed = scan_from (strip_diff_path (drop 4 raw)) new_line lines in
        let jump = λ (n : ℕ). scan_from path n lines in
        if has_prefix (codes "+++ ") raw
        then renamed
        else if is_header raw
        then same
        else elim (hunk raw) [
          | some n ↦ jump n
          | none ↦
              if has_prefix (codes "+") raw
              then noted (scan_line (drop 1 raw) path new_line) onward
              else if has_prefix (codes "-") raw
              then same
              else onward
        ]

    -- `scan_diff`
    unfoldable pub scan_diff : (diff : Text) → List SecretFinding
    unfolding scan_from splitlines
    scan_diff diff = scan_from [] 0 (splitlines diff)
