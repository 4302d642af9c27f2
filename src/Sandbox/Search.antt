-- ===== src/Sandbox/Search.antt =====
-- The search for bare test files finds one if and only if there is one.
use automated_software_engin.Prelude.{
  ℕ, zero, suc, ◌+◌, ◌≤◌, ◌≡◌, refl, sym, ap, subst, ◌∙◌, Text, inl, inr, Bool, true, false, ◌&&◌,
  ◌||◌, Option, none, some, List, [], ◌∷◌, arith, if◌then◌else◌, Bool-cases, any_of,
}
use automated_software_engin.Sandbox.{
  Entries, folder, unreadable, plain_file, no_entries, entry, is_searched, is_test_name, look,
  search_folders, folders, has_bare_python_tests,
}

-- A test file in the folder, or in a folder in it that is searched.
abbrev pub holds_test : Entries → Bool
holds_test no_entries = false
holds_test (entry (folder name es) rest) = (is_searched name && holds_test es) || holds_test rest
holds_test (entry (unreadable name) rest) = holds_test rest
holds_test (entry (plain_file name) rest) = is_test_name name || holds_test rest

abbrev waiting : List Entries → ℕ
waiting [] = 0
waiting (es ∷ stack) = suc (folders es) + waiting stack

-- What one folder leaves: a test was found in it, or what is left on the stack.
abbrev Looked : Entries → List Entries → Option (List Entries) → Type 0
Looked es stack none = holds_test es ≡ true
Looked es stack (some left) =
    (any_of holds_test left ≡ holds_test es || any_of holds_test stack)
    × (waiting left ≤ folders es + waiting stack)

regroup : (a b c : Bool) → a || (b || c) ≡ (b || a) || c
regroup a b c = ground arith

or_right : (a b : Bool) → b ≡ true → a || b ≡ true
or_right a b h = ground arith

-- From the rest of a folder to the folder, entry by entry.
after_folder :
    (name : Text) (es rest : Entries) (stack : List Entries) (o : Option (List Entries))
    → Looked rest (if is_searched name then es ∷ stack else stack) o
    → Looked (entry (folder name es) rest) stack o
unfolding folders
after_folder name es rest stack none h =
    or_right (is_searched name && holds_test es) (holds_test rest) h
after_folder name es rest stack (some left) h = elim (Bool-cases (is_searched name)) [
  | inl e ↦
      let k : Looked rest (es ∷ stack) (some left) =
        subst (λ b. Looked rest (if b then es ∷ stack else stack) (some left)) e h in
      (
        k.0
            ∙ (regroup (holds_test rest) (holds_test es) (any_of holds_test stack)
                ∙ sym (
                    ap (λ b. ((b && holds_test es) || holds_test rest) || any_of holds_test stack)
                      e)),
        omega (arith, k.1),
      )
  | inr e ↦
      let k : Looked rest stack (some left) =
        subst (λ b. Looked rest (if b then es ∷ stack else stack) (some left)) e h in
      (
        k.0
            ∙ sym
                (ap (λ b. ((b && holds_test es) || holds_test rest) || any_of holds_test stack) e),
        omega (arith, k.1),
      )
]

after_unreadable :
    (name : Text) (rest : Entries) (stack : List Entries) (o : Option (List Entries))
    → Looked rest stack o
    → Looked (entry (unreadable name) rest) stack o
unfolding folders
after_unreadable name rest stack none h = h
after_unreadable name rest stack (some left) h = (h.0, omega arith)

after_file :
    (name : Text) (rest : Entries) (stack : List Entries) (o : Option (List Entries))
    → is_test_name name ≡ false
    → Looked rest stack o
    → Looked (entry (plain_file name) rest) stack o
unfolding folders
after_file name rest stack none e h = ground (arith, h)
after_file name rest stack (some left) e h = (ground (arith, h.0, e), omega arith)

look-Looked : (es : Entries) (stack : List Entries) → Looked es stack (look es stack)
unfolding look folders
look-Looked no_entries stack = (refl, omega arith)
look-Looked (entry (folder name es) rest) stack =
    after_folder name es rest stack (look rest (if is_searched name then es ∷ stack else stack))
      (look-Looked rest (if is_searched name then es ∷ stack else stack))
look-Looked (entry (unreadable name) rest) stack =
    after_unreadable name rest stack (look rest stack) (look-Looked rest stack)
look-Looked (entry (plain_file name) rest) stack = elim (Bool-cases (is_test_name name)) [
  | inl e ↦ rw e (ground (arith, e))
  | inr e ↦ rw (e, look) (after_file name rest stack (look rest stack) e (look-Looked rest stack))
]

search_folders-holds_test :
    (fuel : ℕ) (stack : List Entries)
    → waiting stack ≤ fuel
    → search_folders fuel stack ≡ any_of holds_test stack
unfolding search_folders
search_folders-holds_test fuel [] h = refl
search_folders-holds_test zero (es ∷ stack) h = absurd (omega arith)
search_folders-holds_test (suc fuel) (es ∷ stack) h =
    go (search_folders-holds_test fuel) (look es stack) refl (look-Looked es stack)
  where
    go :
        ((left : List Entries)
          → waiting left ≤ fuel
          → search_folders fuel left ≡ any_of holds_test left)
        → (o : Option (List Entries)) → look es stack ≡ o
        → Looked es stack (look es stack)
        → search_folders (suc fuel) (es ∷ stack) ≡ holds_test es || any_of holds_test stack
    go rest none e l =
        let found : holds_test es ≡ true = subst (Looked es stack) e l in
        rw (e, search_folders) (ground (arith, found))
    go rest (some left) e l =
        let (same, fewer) = subst (Looked es stack) e l in
        rw (e, search_folders) (rest left (omega arith) ∙ same)

-- The search for bare test files ends, and it finds one exactly if there is one in a folder that
-- is searched.
pub has_bare_python_tests-holds_test :
    (root : Entries) → has_bare_python_tests root ≡ holds_test root
unfolding has_bare_python_tests
has_bare_python_tests-holds_test root =
    search_folders-holds_test (suc (folders root)) (root ∷ []) (omega arith) ∙ ground arith
