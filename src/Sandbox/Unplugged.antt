-- ===== src/Sandbox/Unplugged.antt =====
-- What the sandbox guarantees: no test with a network, no container left, no silent pass.
use automated_software_engin.Prelude.{
  ◌≡◌, ◌⊎◌, Bool, true, false, ◌&&◌, ◌||◌, Option, none, some, [], ◌∷◌, any_of, Text, text_eq, ℤ,
  pos, is_int,
}
use automated_software_engin.Sandbox.{
  SandboxStatus, SandboxPlan, SandboxResult, none_collected, Command, version, copy_in, disconnect,
  remove, start, exec, History,
}

-- `docker network disconnect` was done, and answered 0.
abbrev is_unplugging : Command × ℤ → Bool
is_unplugging (disconnect, code) = is_int code (pos 0)
is_unplugging _ = false

abbrev is_install : Option Text → Text → Bool
is_install none shell = false
is_install (some install) shell = text_eq shell install

-- Each command that runs in the container, but the plan's own install, came after the network was
-- unplugged.
abbrev pub IsUnplugged : Option Text → History → Type 0
IsUnplugged install [] = Unit
IsUnplugged install ((exec shell, code) ∷ h) =
    (is_install install shell || any_of is_unplugging h ≡ true) × IsUnplugged install h
IsUnplugged install ((version, code) ∷ h) = IsUnplugged install h
IsUnplugged install ((copy_in, code) ∷ h) = IsUnplugged install h
IsUnplugged install ((disconnect, code) ∷ h) = IsUnplugged install h
IsUnplugged install ((remove, code) ∷ h) = IsUnplugged install h
IsUnplugged install ((start image, code) ∷ h) = IsUnplugged install h

abbrev pub install_of : Option SandboxPlan → Option Text
install_of none = none
install_of (some plan) = plan.install

abbrev pub is_start : Command × ℤ → Bool
is_start (start image, code) = true
is_start _ = false

-- The last command removed the container.
abbrev pub ends_removed : History → Bool
ends_removed ((remove, code) ∷ h) = true
ends_removed _ = false

-- The last command before the removal ran the tests, and answered 0.
abbrev pub tests_succeeded : SandboxPlan → History → Bool
tests_succeeded plan ((remove, _) ∷ (exec shell, code) ∷ h) =
    text_eq shell plan.test && is_int code (pos 0)
tests_succeeded plan _ = false

-- What the run of a sandbox leaves, in the order of the fields: only the plan's own install, which
-- may execute code of the run as well, ran with a network; a container that was started is removed;
-- a run that passed has a plan whose tests ran last and succeeded; and where a sandbox is required and there is a plan, the gate is
-- skipped only because no test was collected.
pub record IsContained (sandbox_enabled sandbox_required : Bool) (plan : Option SandboxPlan)
    (answer : SandboxResult × History) : Type 0 where
  pub unplugged : IsUnplugged (install_of plan) answer.1
  pub removed : (any_of is_start answer.1 ≡ false) ⊎ (ends_removed answer.1 ≡ true)
  pub tested :
      answer.0.status ≡ SandboxStatus.passed
      → (p : SandboxPlan) × (plan ≡ some p) × (tests_succeeded p answer.1 ≡ true)
  pub strict :
      (p : SandboxPlan)
      → sandbox_enabled ≡ true
      → sandbox_required ≡ true
      → plan ≡ some p
      → answer.0.status ≡ SandboxStatus.skipped
      → answer.0.reason ≡ none_collected
