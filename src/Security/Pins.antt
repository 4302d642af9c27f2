-- ===== src/Security/Pins.antt =====
-- What the scan for vulnerable dependencies finds in a diff that is built of files and hunks.
use automated_software_engin.Prelude.{
  ℕ, ◌+◌, ◌≡◌, refl, sym, ap, ◌∙◌, inl, inr, false, Option, none, some, List, [], ◌∷◌, ◌++◌, map,
  ◌==◌, Bool-cases, Option-cases, Text, codes, has_prefix, All,
}
use mathlib.Core.List.{append_assoc, append-nil}
use automated_software_engin.Security.Lines.{
  with_line_feeds, IsUnbroken, splitlines-with_line_feeds,
}
use automated_software_engin.Security.Secrets.{strip_diff_path, is_header}
use automated_software_engin.Security.Dependencies.{
  Kind, Patterns, DependencyFinding, manifest_kind, content_of, pending_after, check_line, noted,
  scan_from, scan_diff,
}
use automated_software_engin.Security.Diff.{
  Line, added, removed, context, marker, Hunk, FileDiff, render_line, render_hunks, render, IsPlain,
  IsPassed, passed-unnamed, IsHunk, IsFileDiff, next_line,
}

module _ {V : Type 0} (p : Patterns V) where
  -- The package that the lines of a manifest leave named, whether they are added or not.
  abbrev named : Kind → Text → List Line → Text
  named kind name [] = name
  named kind name (added t ∷ ls) = named kind (pending_after p kind t name) ls
  named kind name (removed t ∷ ls) = named kind name ls
  named kind name (context t ∷ ls) = named kind (pending_after p kind t name) ls
  named kind name (marker t ∷ ls) = named kind (pending_after p kind (92 ∷ t) name) ls

  -- The vulnerable pins of the added lines, each with the number of its line in the new file.
  abbrev line_pins : (path : Text) → Kind → ℕ → Text → List Line → List DependencyFinding
  line_pins path kind n name [] = []
  line_pins path kind n name (added t ∷ ls) =
      noted p (check_line p kind t (pending_after p kind t name) path n)
        (line_pins path kind (n + 1) (pending_after p kind t name) ls)
  line_pins path kind n name (removed t ∷ ls) = line_pins path kind n name ls
  line_pins path kind n name (context t ∷ ls) =
      line_pins path kind (n + 1) (pending_after p kind t name) ls
  line_pins path kind n name (marker t ∷ ls) =
      line_pins path kind (n + 1) (pending_after p kind (92 ∷ t) name) ls

  -- Of a manifest, hunk by hunk; another file has none.
  abbrev hunk_pins : (path : Text) → Option Kind → Text → List Hunk → List DependencyFinding
  hunk_pins path none name hs = []
  hunk_pins path (some kind) name [] = []
  hunk_pins path (some kind) name (h ∷ hs) =
      line_pins path kind h.start name h.lines
      ++ hunk_pins path (some kind) (named kind name h.lines) hs

  abbrev pub pins : List FileDiff → List DependencyFinding
  pins [] = []
  pins (f ∷ fs) =
      let path = strip_diff_path f.name in
      hunk_pins path (manifest_kind p path) [] f.hunks ++ pins fs

  noted-append :
      (o : Option DependencyFinding) (xs ys : List DependencyFinding)
      → noted p o (xs ++ ys) ≡ noted p o xs ++ ys
  noted-append none xs ys = refl
  noted-append (some f) xs ys = refl

  module _ (anchored : (c : ℕ) (t : Text) → c == 64 ≡ false → p.hunk (c ∷ t) ≡ none) where
    -- A line that adds nothing changes at most the line number and the pending name.
    scan_from-passed :
        (path : Text) (kind : Option Kind) (n : ℕ) (name raw : Text) (rest : List Text)
        (found : List DependencyFinding)
        → IsPassed raw
        → ((k : ℕ) (name : Text) → scan_from p path kind k name rest ≡ found)
        → scan_from p path kind n name (raw ∷ rest) ≡ found
    unfolding scan_from
    scan_from-passed path none n name raw rest found h ends =
        rw (passed-unnamed raw h) (elim (Bool-cases (is_header raw)) [
          | inl e ↦ rw e (ends n name)
          | inr e ↦ rw e (elim (Option-cases (p.hunk raw)) [
            | inr (k, o) ↦ rw o (ends k name)
            | inl o ↦ rw o (ends n name)
          ])
        ])
    scan_from-passed path (some kind) n name raw rest found h ends =
        let name' = pending_after p kind (content_of raw) name in
        rw (passed-unnamed raw h) (elim (Bool-cases (is_header raw)) [
          | inl e ↦ rw e (ends n name)
          | inr e ↦ rw e (elim (Option-cases (p.hunk raw)) [
            | inr (k, o) ↦ rw o (ends k name)
            | inl o ↦ rw o (
                rw h (elim (Bool-cases (has_prefix (codes "-") raw)) [
                  | inl m ↦ rw m (ends n name)
                  | inr m ↦ rw m (ends (n + 1) name')
                ]))
          ])
        ])

    scan_from-preamble :
        (path : Text) (kind : Option Kind) (n : ℕ) (name : Text) (raws rest : List Text)
        (found : List DependencyFinding)
        → All IsPassed raws
        → ((k : ℕ) (name : Text) → scan_from p path kind k name rest ≡ found)
        → scan_from p path kind n name (raws ++ rest) ≡ found
    scan_from-preamble path kind n name [] rest found hs ends = ends n name
    scan_from-preamble path kind n name (raw ∷ raws) rest found hs ends =
        scan_from-passed path kind n name raw (raws ++ rest) found hs.0
          (λ k name'. scan_from-preamble path kind k name' raws rest found hs.1 ends)

    scan_from-removed :
        (path : Text) (kind : Option Kind) (n : ℕ) (name t : Text) (rest : List Text)
        → scan_from p path kind n name ((45 ∷ t) ∷ rest) ≡ scan_from p path kind n name rest
    unfolding scan_from
    scan_from-removed path none n name t rest = elim (Bool-cases (is_header (45 ∷ t))) [
      | inl e ↦ rw e
      | inr e ↦ rw e (rw (anchored 45 t refl))
    ]
    scan_from-removed path (some k) n name t rest = elim (Bool-cases (is_header (45 ∷ t))) [
      | inl e ↦ rw e
      | inr e ↦ rw e (rw (anchored 45 t refl))
    ]

    scan_from-added :
        (path : Text) (k : Kind) (n : ℕ) (name t : Text) (rest : List Text)
        → has_prefix (codes "++ ") t ≡ false
        → scan_from p path (some k) n name ((43 ∷ t) ∷ rest)
          ≡ noted p
              (check_line p k t (pending_after p k t name) path n)
              (scan_from p path (some k) (n + 1) (pending_after p k t name) rest)
    unfolding scan_from
    scan_from-added path k n name t rest h = rw h (rw (anchored 43 t refl))

    scan_from-context :
        (path : Text) (k : Kind) (n : ℕ) (name t : Text) (rest : List Text)
        → scan_from p path (some k) n name ((32 ∷ t) ∷ rest)
          ≡ scan_from p path (some k) (n + 1) (pending_after p k t name) rest
    unfolding scan_from
    scan_from-context path k n name t rest = rw (anchored 32 t refl)

    scan_from-marker :
        (path : Text) (k : Kind) (n : ℕ) (name t : Text) (rest : List Text)
        → scan_from p path (some k) n name ((92 ∷ t) ∷ rest)
          ≡ scan_from p path (some k) (n + 1) (pending_after p k (92 ∷ t) name) rest
    unfolding scan_from
    scan_from-marker path k n name t rest = rw (anchored 92 t refl)

    scan_from-hunk :
        (path : Text) (kind : Option Kind) (n : ℕ) (name : Text) (h : Hunk) (rest : List Text)
        → IsHunk p.hunk h
        → scan_from p path kind n name ((64 ∷ h.header) ∷ rest)
          ≡ scan_from p path kind h.start name rest
    unfolding scan_from
    scan_from-hunk path kind n name h rest fit = rw fit.read

    scan_from-file :
        (path : Text) (kind : Option Kind) (n : ℕ) (name file : Text) (rest : List Text)
        → scan_from p path kind n name ((codes "+++ " ++ file) ∷ rest)
          ≡ scan_from p (strip_diff_path file) (manifest_kind p (strip_diff_path file)) n [] rest
    unfolding scan_from
    scan_from-file path kind n name file rest = refl

    -- A line of a file that is no manifest is passed over.
    scan_from-other :
        (path : Text) (n : ℕ) (name : Text) (l : Line) (rest : List Text)
        → IsPlain l
        → scan_from p path none n name (render_line l ∷ rest) ≡ scan_from p path none n name rest
    unfolding scan_from
    scan_from-other path n name (added t) rest h = rw h (rw (anchored 43 t refl))
    scan_from-other path n name (removed t) rest h = scan_from-removed path none n name t rest
    scan_from-other path n name (context t) rest h = rw (anchored 32 t refl)
    scan_from-other path n name (marker t) rest h = rw (anchored 92 t refl)

    scan_from-others :
        (path : Text) (n : ℕ) (name : Text) (ls : List Line) (rest : List Text)
        → All IsPlain ls
        → scan_from p path none n name (map render_line ls ++ rest)
          ≡ scan_from p path none n name rest
    scan_from-others path n name [] rest ps = refl
    scan_from-others path n name (l ∷ ls) rest ps =
        scan_from-other path n name l (map render_line ls ++ rest) ps.0
        ∙ scan_from-others path n name ls rest ps.1

    scan_from-lines :
        (path : Text) (k : Kind) (n : ℕ) (name : Text) (ls : List Line) (rest : List Text)
        → All IsPlain ls
        → scan_from p path (some k) n name (map render_line ls ++ rest)
          ≡ line_pins path k n name ls
            ++ scan_from p path (some k) (next_line n ls) (named k name ls) rest
    scan_from-lines path k n name [] rest ps = refl
    scan_from-lines path k n name (added t ∷ ls) rest ps =
        let name' = pending_after p k t name in
        let found = check_line p k t name' path n in
        scan_from-added path k n name t (map render_line ls ++ rest) ps.0
        ∙ ap (noted p found) (scan_from-lines path k (n + 1) name' ls rest ps.1)
        ∙ noted-append found (line_pins path k (n + 1) name' ls)
            (scan_from p path (some k) (next_line (n + 1) ls) (named k name' ls) rest)
    scan_from-lines path k n name (removed t ∷ ls) rest ps =
        scan_from-removed path (some k) n name t (map render_line ls ++ rest)
        ∙ scan_from-lines path k n name ls rest ps.1
    scan_from-lines path k n name (context t ∷ ls) rest ps =
        scan_from-context path k n name t (map render_line ls ++ rest)
        ∙ scan_from-lines path k (n + 1) (pending_after p k t name) ls rest ps.1
    scan_from-lines path k n name (marker t ∷ ls) rest ps =
        scan_from-marker path k n name t (map render_line ls ++ rest)
        ∙ scan_from-lines path k (n + 1) (pending_after p k (92 ∷ t) name) ls rest ps.1

    scan_from-hunks :
        (path : Text) (kind : Option Kind) (n : ℕ) (name : Text) (hs : List Hunk) (rest : List Text)
        (found : List DependencyFinding)
        → All (IsHunk p.hunk) hs
        → ((k : ℕ) (name : Text) → scan_from p path kind k name rest ≡ found)
        → scan_from p path kind n name (render_hunks hs rest) ≡ hunk_pins path kind name hs ++ found
    scan_from-hunks path none n name [] rest found fits ends = ends n name
    scan_from-hunks path (some k) n name [] rest found fits ends = ends n name
    scan_from-hunks path none n name (h ∷ hs) rest found fits ends =
        let after = render_hunks hs rest in
        scan_from-hunk path none n name h (map render_line h.lines ++ after) fits.0
        ∙ scan_from-others path h.start name h.lines after fits.0.plain
        ∙ scan_from-hunks path none h.start name hs rest found fits.1 ends
    scan_from-hunks path (some k) n name (h ∷ hs) rest found fits ends =
        let after = render_hunks hs rest in
        let here = line_pins path k h.start name h.lines in
        let name' = named k name h.lines in
        scan_from-hunk path (some k) n name h (map render_line h.lines ++ after) fits.0
        ∙ scan_from-lines path k h.start name h.lines after fits.0.plain
        ∙ ap (λ fs. here ++ fs)
            (scan_from-hunks path (some k) (next_line h.start h.lines) name' hs rest found fits.1
              ends)
        ∙ sym (append_assoc here (hunk_pins path (some k) name' hs) found)

    module _ (closing : List Text) (closed : All IsPassed closing) where
      scan_from-render :
          (path : Text) (kind : Option Kind) (n : ℕ) (name : Text) (fs : List FileDiff)
          → All (IsFileDiff p.hunk) fs
          → scan_from p path kind n name (render closing fs) ≡ pins fs
      unfolding scan_from
      scan_from-render path kind n name [] fits =
          ap (scan_from p path kind n name) (sym (append-nil closing))
          ∙ scan_from-preamble path kind n name closing [] [] closed (λ k name'. refl)
      scan_from-render path kind n name (f ∷ fs) fits =
          let file = strip_diff_path f.name in
          let of_file = manifest_kind p file in
          let after = render closing fs in
          let body = render_hunks f.hunks after in
          scan_from-preamble path kind n name f.preamble ((codes "+++ " ++ f.name) ∷ body)
            (hunk_pins file of_file [] f.hunks ++ pins fs) fits.0.passed
            (λ k name'.
              scan_from-file path kind k name' f.name body
              ∙ scan_from-hunks file of_file k [] f.hunks after (pins fs) fits.0.hunks
                  (λ m last. scan_from-render file of_file m last fs fits.1))

      -- The scan of the text of a diff finds exactly the vulnerable pins of the lines that are
      -- added to a manifest, each at the number of its line in the new file, where a marker of a
      -- missing line feed counts as a line; in a lock file a version belongs to the last package
      -- that a line of the new file named. The diff is built of files, hunks and lines, and what
      -- it says outside of hunks adds nothing; the pattern reads the headers of the hunks and is
      -- anchored at `@`; no added line reads as the header of a file; and no line holds one of the
      -- characters at which `str.splitlines` breaks a line.
      pub scan_diff-pins :
          (fs : List FileDiff)
          → All (IsFileDiff p.hunk) fs
          → All IsUnbroken (render closing fs)
          → scan_diff p (with_line_feeds (render closing fs)) ≡ pins fs
      unfolding scan_diff
      scan_diff-pins fs fits whole =
          ap (scan_from p [] none 0 []) (splitlines-with_line_feeds (render closing fs) whole)
          ∙ scan_from-render [] none 0 [] fs fits
