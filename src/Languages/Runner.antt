-- ===== src/Languages/Runner.antt =====
-- src/languages/mod.rs: the trait that each language implements. `default_max_pids` is the
-- provided body of `max_pids`.
use akiro.Prelude.{ℕ, Bool, Option, List}
use akiro.Prelude.Text.{Text}
use akiro.Languages.Language.{SupportedLanguage}
use akiro.Sandbox.Config.{SandboxConfig}

pub record LanguageRunner : Type 0 where
  pub language : SupportedLanguage
  pub is_compiled : Bool
  pub get_source_filename : Text
  pub max_pids : ℕ
  -- From the paths of the source and of the binary.
  pub get_compile_command : Text → Text → Option SandboxConfig
  -- From the path of the binary, the input, the time limit in ms and the memory limit in bytes.
  pub get_run_command : Text → List ℕ → ℕ → ℕ → SandboxConfig

abbrev pub default_max_pids : ℕ
default_max_pids = 2
