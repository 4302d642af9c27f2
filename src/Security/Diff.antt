-- ===== src/Security/Diff.antt =====
-- A unified diff as it is built, and what the scan of its text for secrets finds.
use automated_software_engin.Prelude.{
  ℕ, ◌+◌, ◌≡◌, refl, sym, ap, ◌∙◌, inl, inr, false, Option, none, some, List, [], ◌∷◌, ◌++◌, map,
  ◌==◌, Bool-cases, Option-cases, Text, codes, has_prefix, arith, All,
}
use mathlib.Core.List.{append_assoc, append-nil}
use automated_software_engin.Security.Lines.{
  with_line_feeds, IsUnbroken, splitlines-with_line_feeds,
}
use automated_software_engin.Security.Secrets.{
  Rule, SecretFinding, strip_diff_path, is_header, scan_line, noted, scan_from, scan_diff,
}

-- A line of a hunk; only the added ones are new. A marker tells that a file has no line feed at
-- its end.
pub data Line : Type 0 where
  added removed context marker : Text → Line

pub record Hunk : Type 0 where
  -- what stands behind the first `@` of the header
  pub header : Text
  -- the number of its first line in the new file
  pub start : ℕ
  pub lines : List Line

-- The part of a diff about one file: the lines before `+++ `, the name behind it, the hunks. What
-- git says of a file without hunks, as a rename, stands in the preamble of the next one.
pub record FileDiff : Type 0 where
  pub preamble : List Text
  pub name : Text
  pub hunks : List Hunk

abbrev pub render_line : Line → Text
render_line (added t) = 43 ∷ t
render_line (removed t) = 45 ∷ t
render_line (context t) = 32 ∷ t
render_line (marker t) = 92 ∷ t

abbrev pub render_hunks : List Hunk → List Text → List Text
render_hunks [] rest = rest
render_hunks (h ∷ hs) rest = (64 ∷ h.header) ∷ (map render_line h.lines ++ render_hunks hs rest)

-- The lines of a diff; `closing` is what it says of files without hunks at its end.
abbrev pub render : (closing : List Text) → List FileDiff → List Text
render closing [] = closing
render closing (f ∷ fs) =
    f.preamble ++ (codes "+++ " ++ f.name) ∷ render_hunks f.hunks (render closing fs)

-- An added line does not read as the header of a file.
abbrev pub IsPlain : Line → Type 0
IsPlain (added t) = has_prefix (codes "++ ") t ≡ false
IsPlain (removed t) = Unit
IsPlain (context t) = Unit
IsPlain (marker t) = Unit

-- The number behind the lines of a hunk: the source counts a marker too.
abbrev pub next_line : ℕ → List Line → ℕ
next_line n [] = n
next_line n (added t ∷ ls) = next_line (n + 1) ls
next_line n (removed t ∷ ls) = next_line n ls
next_line n (context t ∷ ls) = next_line (n + 1) ls
next_line n (marker t ∷ ls) = next_line (n + 1) ls

-- A line that adds nothing.
abbrev pub IsPassed : Text → Type 0
IsPassed raw = has_prefix (codes "+") raw ≡ false

pub passed-unnamed : (raw : Text) → IsPassed raw → has_prefix (codes "+++ ") raw ≡ false
passed-unnamed [] h = refl
passed-unnamed (c ∷ raw) h = ground (arith, h)

module _ (hunk : Text → Option ℕ) where
  -- The hunks have the headers that the pattern reads.
  pub record IsHunk (h : Hunk) : Type 0 where
    pub read : hunk (64 ∷ h.header) ≡ some h.start
    pub plain : All IsPlain h.lines

  pub record IsFileDiff (f : FileDiff) : Type 0 where
    pub passed : All IsPassed f.preamble
    pub hunks : All IsHunk f.hunks

module _ (lower : Text → Text) (search : Rule → Text → Option Text) (hunk : Text → Option ℕ) where
  -- The secrets of the added lines, each with the number of its line in the new file.
  abbrev pub line_findings : (path : Text) → ℕ → List Line → List SecretFinding
  line_findings path n [] = []
  line_findings path n (added t ∷ ls) =
      noted lower search (scan_line lower search t path n) (line_findings path (n + 1) ls)
  line_findings path n (removed t ∷ ls) = line_findings path n ls
  line_findings path n (context t ∷ ls) = line_findings path (n + 1) ls
  line_findings path n (marker t ∷ ls) = line_findings path (n + 1) ls

  abbrev pub hunk_findings : (path : Text) → List Hunk → List SecretFinding
  hunk_findings path [] = []
  hunk_findings path (h ∷ hs) = line_findings path h.start h.lines ++ hunk_findings path hs

  abbrev pub findings : List FileDiff → List SecretFinding
  findings [] = []
  findings (f ∷ fs) = hunk_findings (strip_diff_path f.name) f.hunks ++ findings fs

  noted-append :
      (o : Option SecretFinding) (xs ys : List SecretFinding)
      → noted lower search o (xs ++ ys) ≡ noted lower search o xs ++ ys
  noted-append none xs ys = refl
  noted-append (some f) xs ys = refl

  -- The pattern is anchored at `@@`.
  module _ (anchored : (c : ℕ) (t : Text) → c == 64 ≡ false → hunk (c ∷ t) ≡ none) where
    scan_from-added :
        (path : Text) (n : ℕ) (t : Text) (rest : List Text)
        → has_prefix (codes "++ ") t ≡ false
        → scan_from lower search hunk path n ((43 ∷ t) ∷ rest)
          ≡ noted lower search
              (scan_line lower search t path n)
              (scan_from lower search hunk path (n + 1) rest)
    unfolding scan_from
    scan_from-added path n t rest h = rw h (rw (anchored 43 t refl))

    scan_from-removed :
        (path : Text) (n : ℕ) (t : Text) (rest : List Text)
        → scan_from lower search hunk path n ((45 ∷ t) ∷ rest)
          ≡ scan_from lower search hunk path n rest
    unfolding scan_from
    scan_from-removed path n t rest = elim (Bool-cases (is_header (45 ∷ t))) [
      | inl e ↦ rw e
      | inr e ↦ rw e (rw (anchored 45 t refl))
    ]

    scan_from-context :
        (path : Text) (n : ℕ) (t : Text) (rest : List Text)
        → scan_from lower search hunk path n ((32 ∷ t) ∷ rest)
          ≡ scan_from lower search hunk path (n + 1) rest
    unfolding scan_from
    scan_from-context path n t rest = rw (anchored 32 t refl)

    scan_from-hunk :
        (path : Text) (n : ℕ) (h : Hunk) (rest : List Text)
        → IsHunk hunk h
        → scan_from lower search hunk path n ((64 ∷ h.header) ∷ rest)
          ≡ scan_from lower search hunk path h.start rest
    unfolding scan_from
    scan_from-hunk path n h rest fit = rw fit.read

    scan_from-file :
        (path : Text) (n : ℕ) (name : Text) (rest : List Text)
        → scan_from lower search hunk path n ((codes "+++ " ++ name) ∷ rest)
          ≡ scan_from lower search hunk (strip_diff_path name) n rest
    unfolding scan_from
    scan_from-file path n name rest = refl

    scan_from-marker :
        (path : Text) (n : ℕ) (t : Text) (rest : List Text)
        → scan_from lower search hunk path n ((92 ∷ t) ∷ rest)
          ≡ scan_from lower search hunk path (n + 1) rest
    unfolding scan_from
    scan_from-marker path n t rest = rw (anchored 92 t refl)

    -- A line that adds nothing changes at most the line number.
    scan_from-passed :
        (path : Text) (n : ℕ) (raw : Text) (rest : List Text) (found : List SecretFinding)
        → IsPassed raw
        → ((k : ℕ) → scan_from lower search hunk path k rest ≡ found)
        → scan_from lower search hunk path n (raw ∷ rest) ≡ found
    unfolding scan_from
    scan_from-passed path n raw rest found h ends =
        rw (passed-unnamed raw h) (elim (Bool-cases (is_header raw)) [
          | inl e ↦ rw e (ends n)
          | inr e ↦ rw e (elim (Option-cases (hunk raw)) [
            | inr (k, o) ↦ rw o (ends k)
            | inl o ↦ rw o (
                rw h (elim (Bool-cases (has_prefix (codes "-") raw)) [
                  | inl m ↦ rw m (ends n)
                  | inr m ↦ rw m (ends (n + 1))
                ]))
          ])
        ])

    scan_from-preamble :
        (path : Text) (n : ℕ) (raws rest : List Text) (found : List SecretFinding)
        → All IsPassed raws
        → ((k : ℕ) → scan_from lower search hunk path k rest ≡ found)
        → scan_from lower search hunk path n (raws ++ rest) ≡ found
    scan_from-preamble path n [] rest found hs ends = ends n
    scan_from-preamble path n (raw ∷ raws) rest found hs ends =
        scan_from-passed path n raw (raws ++ rest) found hs.0
          (λ k. scan_from-preamble path k raws rest found hs.1 ends)

    scan_from-lines :
        (path : Text) (n : ℕ) (ls : List Line) (rest : List Text)
        → All IsPlain ls
        → scan_from lower search hunk path n (map render_line ls ++ rest)
          ≡ line_findings path n ls ++ scan_from lower search hunk path (next_line n ls) rest
    scan_from-lines path n [] rest ps = refl
    scan_from-lines path n (added t ∷ ls) rest ps =
        scan_from-added path n t (map render_line ls ++ rest) ps.0
        ∙ ap (noted lower search (scan_line lower search t path n))
            (scan_from-lines path (n + 1) ls rest ps.1)
        ∙ noted-append (scan_line lower search t path n) (line_findings path (n + 1) ls)
            (scan_from lower search hunk path (next_line (n + 1) ls) rest)
    scan_from-lines path n (removed t ∷ ls) rest ps =
        scan_from-removed path n t (map render_line ls ++ rest)
        ∙ scan_from-lines path n ls rest ps.1
    scan_from-lines path n (context t ∷ ls) rest ps =
        scan_from-context path n t (map render_line ls ++ rest)
        ∙ scan_from-lines path (n + 1) ls rest ps.1
    scan_from-lines path n (marker t ∷ ls) rest ps =
        scan_from-marker path n t (map render_line ls ++ rest)
        ∙ scan_from-lines path (n + 1) ls rest ps.1

    scan_from-hunks :
        (path : Text) (n : ℕ) (hs : List Hunk) (rest : List Text) (found : List SecretFinding)
        → All (IsHunk hunk) hs
        → ((k : ℕ) → scan_from lower search hunk path k rest ≡ found)
        → scan_from lower search hunk path n (render_hunks hs rest) ≡ hunk_findings path hs ++ found
    scan_from-hunks path n [] rest found fits ends = ends n
    scan_from-hunks path n (h ∷ hs) rest found fits ends =
        let after = render_hunks hs rest in
        let k = next_line h.start h.lines in
        scan_from-hunk path n h (map render_line h.lines ++ after) fits.0
        ∙ scan_from-lines path h.start h.lines after fits.0.plain
        ∙ ap (λ fs. line_findings path h.start h.lines ++ fs)
            (scan_from-hunks path k hs rest found fits.1 ends)
        ∙ sym (append_assoc (line_findings path h.start h.lines) (hunk_findings path hs) found)

    module _ (closing : List Text) (closed : All IsPassed closing) where
      scan_from-render :
          (path : Text) (n : ℕ) (fs : List FileDiff)
          → All (IsFileDiff hunk) fs
          → scan_from lower search hunk path n (render closing fs) ≡ findings fs
      unfolding scan_from
      scan_from-render path n [] fits =
          ap (scan_from lower search hunk path n) (sym (append-nil closing))
          ∙ scan_from-preamble path n closing [] [] closed (λ k. refl)
      scan_from-render path n (f ∷ fs) fits =
          let named = strip_diff_path f.name in
          let after = render closing fs in
          let body = render_hunks f.hunks after in
          scan_from-preamble path n f.preamble ((codes "+++ " ++ f.name) ∷ body)
            (hunk_findings named f.hunks ++ findings fs) fits.0.passed
            (λ k.
              scan_from-file path k f.name body
              ∙ scan_from-hunks named k f.hunks after (findings fs) fits.0.hunks
                  (λ m. scan_from-render named m fs fits.1))

      -- The scan of the text of a diff finds exactly the secrets of its added lines, each under
      -- the name of its file and at the number of its line in the new file, where a marker of a
      -- missing line feed counts as a line. The diff is built of files, hunks and lines, and what
      -- it says outside of hunks adds nothing; the pattern reads the headers of the hunks and is
      -- anchored at `@`; no added line reads as the header of a file; and no line holds one of the
      -- characters at which `str.splitlines` breaks a line.
      pub scan_diff-findings :
          (fs : List FileDiff)
          → All (IsFileDiff hunk) fs
          → All IsUnbroken (render closing fs)
          → scan_diff lower search hunk (with_line_feeds (render closing fs)) ≡ findings fs
      unfolding scan_diff
      scan_diff-findings fs fits whole =
          ap (scan_from lower search hunk [] 0)
            (splitlines-with_line_feeds (render closing fs) whole)
          ∙ scan_from-render [] 0 fs fits
