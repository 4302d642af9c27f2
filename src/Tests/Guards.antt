-- ===== src/Tests/Guards.antt =====
-- The theorems on the sandbox, the model router and the scan for secrets at concrete inputs.
use automated_software_engin.Prelude.{
  filter_by, ℕ, zero, suc, ◌≡◌, refl, Bool, true, false, Option, none, some, List, [], ◌∷◌, Text,
  codes, All, if◌then◌else◌, ◌==◌, pos,
}
use automated_software_engin.Errors.{integrity_error}
use automated_software_engin.Sandbox.{
  Docker, Entries, folder, plain_file, no_entries, entry, Workspace, Settings,
  has_bare_python_tests,
}
use automated_software_engin.Sandbox.Search.{holds_test, has_bare_python_tests-holds_test}
use automated_software_engin.Llm.{Attempt, done, rate_limited, Retried, call_with_retries}
use automated_software_engin.Llm.Keys.{
  ProviderKey, is_personal, is_shared, load_provider_keys, provider_of, api_key_for_model, or_else,
  last_key, api_key_for_model-outranks,
}
use automated_software_engin.Llm.Retries.{IsRetried, call_with_retries-IsRetried}
use automated_software_engin.Security.Lines.{with_line_feeds, IsUnbroken}
use automated_software_engin.Security.Secrets.{Rule, scan_diff}
use automated_software_engin.Security.Dependencies
use automated_software_engin.Security.Dependencies.{Patterns}
use automated_software_engin.Security.Pins.{pins, scan_diff-pins}
use automated_software_engin.Security.Diff.{
  added, removed, context, marker, FileDiff, IsFileDiff, render, findings, scan_diff-findings,
}

-- A test in a folder beside one that is skipped.
abbrev root : Entries
root =
    entry (folder (codes ".git") (entry (plain_file (codes "test_a.py")) no_entries))
      (entry (folder (codes "sub") (entry (plain_file (codes "test_b.py")) no_entries)) no_entries)

has_bare_python_tests-holds_test_example : has_bare_python_tests root ≡ holds_test root
has_bare_python_tests-holds_test_example = has_bare_python_tests-holds_test root

-- Every command succeeds.
abbrev willing : Docker
willing h command = (pos 0, [])

abbrev names_it : Text → Bool
names_it test = true

abbrev strict : Settings
strict = record { sandbox_enabled = true; sandbox_required = true }

abbrev bare : Workspace
bare = record {
  is_file = λ name. false;
  pyproject_is_installable = false;
  package_json_has_test_script = false;
  entries = root;
}

-- A provider that is rate limited as long as its counter lasts.
abbrev busy : ℕ → Attempt ℕ × ℕ
busy zero = (done 5, zero)
busy (suc n) = (rate_limited integrity_error, n)

call_with_retries-IsRetried_example :
    (r : Retried ℕ ℕ) × (call_with_retries busy 2 ≡ some r) × IsRetried busy r
call_with_retries-IsRetried_example = call_with_retries-IsRetried busy 2

-- A pattern that reads every line that starts with `@`, a rule that finds every line.
abbrev hunk : Text → Option ℕ
hunk [] = none
hunk (c ∷ t) = if c == 64 then some 7 else none

hunk_anchored : (c : ℕ) (t : Text) → c == 64 ≡ false → hunk (c ∷ t) ≡ none
hunk_anchored c t h = rw h

abbrev search : Rule → Text → Option Text
search rule text = some text

abbrev lower : Text → Text
lower text = text

abbrev diff : List FileDiff
diff =
    record {
      preamble = codes "new file mode 100644" ∷ codes "--- /dev/null" ∷ [];
      name = codes "b/x.py";
      hunks =
          record {
            header = codes "@ -7 +7 @@";
            start = 7;
            lines =
                context (codes "a")
                ∷ removed (codes "-- b")
                ∷ added (codes "key")
                ∷ marker (codes " No newline")
                ∷ [];
          }
          ∷ [];
    }
    ∷ []

diff_fits : All (IsFileDiff hunk) diff
diff_fits = (
  record {
    passed = (refl, (refl, tt));
    hunks = (record { read = refl; plain = (tt, (tt, (refl, (tt, tt)))) }, tt);
  },
  tt,
)

-- What git says of a file that is renamed and not changed.
abbrev closing : List Text
closing = codes "rename from a.py" ∷ codes "rename to b.py" ∷ []

diff_whole : All IsUnbroken (render closing diff)
diff_whole = (refl, (refl, (refl, (refl, (refl, (refl, (refl, (refl, (refl, (refl, tt))))))))))

scan_diff-findings_example :
    scan_diff lower search hunk (with_line_feeds (render closing diff))
    ≡ findings lower search hunk diff
scan_diff-findings_example =
    scan_diff-findings lower search hunk hunk_anchored closing (refl, (refl, tt)) diff diff_fits
      diff_whole

-- Patterns that read a pin at `=`, a version that its text stands for, sets that hold each version.
abbrev pin : Text → Option (Text × Text)
pin [] = none
pin (c ∷ t) = if c == 61 then some (codes "flask", t) else none

abbrev patterns : Patterns Text
patterns = record {
  lower = lower;
  pip_pin = pin;
  json_pair = λ t. none;
  lock_key = λ t. none;
  without_range = lower;
  with_dashes = lower;
  version = λ t. some t;
  contains = λ set v. some true;
  hunk = hunk;
}

abbrev pinned : List FileDiff
pinned =
    record {
      preamble = codes "index 1..2" ∷ [];
      name = codes "b/requirements.txt";
      hunks = record { header = codes "@"; start = 7; lines = added (codes "=1.0") ∷ [] } ∷ [];
    }
    ∷ []

pinned_fits : All (IsFileDiff hunk) pinned
pinned_fits =
    (record { passed = (refl, tt); hunks = (record { read = refl; plain = (refl, tt) }, tt) }, tt)

pinned_whole : All IsUnbroken (render closing pinned)
pinned_whole = (refl, (refl, (refl, (refl, (refl, (refl, tt))))))

scan_diff-pins_example :
    Dependencies.scan_diff patterns (with_line_feeds (render closing pinned)) ≡ pins patterns pinned
scan_diff-pins_example =
    scan_diff-pins patterns hunk_anchored closing (refl, (refl, tt)) pinned pinned_fits pinned_whole

-- A key that the organization shares, and the caller's own.
abbrev table : List ProviderKey
table =
    record { user_id = 1; org_id = none; provider = codes "openai"; encrypted_key = codes "mine" }
    ∷ record {
      user_id = 2;
      org_id = some 9;
      provider = codes "openai";
      encrypted_key = codes "ours";
    }
    ∷ []

abbrev decrypt : Text → Option Text
decrypt key = some key

api_key_for_model-outranks_example :
    api_key_for_model (load_provider_keys decrypt 1 (some 9) table) (codes "openai/gpt")
    ≡ or_else
        (last_key decrypt (provider_of (codes "openai/gpt")) (filter_by (is_personal 1) table))
        (last_key decrypt (provider_of (codes "openai/gpt")) (filter_by (is_shared (some 9)) table))
api_key_for_model-outranks_example =
    api_key_for_model-outranks decrypt 1 (some 9) table (codes "openai/gpt")
