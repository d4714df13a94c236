-- ===== src/Languages/Commands.antt =====
-- src/languages/: what every runner's commands have in common.
use akiro.Prelude.{ℕ, ◌+◌, ◌*◌, ◌≡◌, refl, Bool, true, false, Option, none, some, List, min}
use akiro.Prelude.Text.{Text}
use akiro.Prelude.Word.{u64_max, mebibytes}
use akiro.Languages.Language.{SupportedLanguage}
use akiro.Languages.CCpp.{c_runner, cpp_runner}
use akiro.Languages.Rust.{rust_runner}
use akiro.Languages.Golang.{go_runner}
use akiro.Languages.Python.{python_runner, pypy_runner}
use akiro.Languages.Java.{java_runner}
use akiro.Languages.Kotlin.{kotlin_runner}
use akiro.Languages.CSharp.{csharp_runner}
use akiro.Languages.Zig.{zig_runner}
use akiro.Languages.Ruby.{ruby_runner}
use akiro.Languages.Php.{php_runner}
use akiro.Languages.Haskell.{haskell_runner}
use akiro.Languages.Dart.{dart_runner}
use akiro.Languages.Scala.{scala_runner}
use akiro.Languages.JavaScript.{javascript_runner, typescript_runner}
use akiro.Languages.Sql.{sql_runner}
use akiro.Languages.{get_runner}
use akiro.Sandbox.Config.{
  SandboxConfig, run_phase, with_args, with_stdin, with_time_limit, with_memory_limit,
  with_max_output, with_cpu_max_percent, with_pids_limit, with_network_isolation, with_work_dir,
  with_workspace_dir, with_fs_isolation, with_profile,
}
use akiro.Sandbox.Config

abbrev pub is_some {ℓ} : {A : Type ℓ} → Option A → Bool
is_some none = false
is_some (some a) = true

-- What a test run asks of the sandbox.
pub record RunsWithin (c : SandboxConfig) (stdin : List ℕ) (ms bytes : ℕ) : Type 0 where
  pub fed : c.stdin_data ≡ some stdin
  pub timed : c.time_limit_ms ≡ ms
  pub wall : c.wall_time_limit_ms ≡ min (min (ms * 2) u64_max + 1000) u64_max
  pub limited : c.memory_limit_bytes ≡ bytes
  pub output : c.max_output_bytes ≡ mebibytes 10
  pub untrusted : c.profile ≡ run_phase
  pub offline : c.enable_network_isolation ≡ true
  pub jailed : c.enable_fs_isolation ≡ true

-- The runner chosen for a language is that language's, and it has a compile command exactly if it
-- says that it compiles.
pub get_runner_fits :
    (lang : SupportedLanguage) (src bin : Text)
    → let r = get_runner lang in
      (r.language ≡ lang) × (is_some (r.get_compile_command src bin) ≡ r.is_compiled)
unfolding get_runner c_runner cpp_runner rust_runner go_runner python_runner pypy_runner java_runner
    kotlin_runner csharp_runner zig_runner ruby_runner php_runner haskell_runner dart_runner
    scala_runner javascript_runner typescript_runner sql_runner
get_runner_fits SupportedLanguage.c src bin = (refl, refl)
get_runner_fits _ src bin = (refl, refl)

-- Every language's run command hands the input and the limits of the request over unchanged, in a
-- sandbox for untrusted code, without network and in its own root.
pub get_run_command-RunsWithin :
    (lang : SupportedLanguage) (bin : Text) (stdin : List ℕ) (ms bytes : ℕ)
    → RunsWithin ((get_runner lang).get_run_command bin stdin ms bytes) stdin ms bytes
unfolding get_runner c_runner cpp_runner rust_runner go_runner python_runner pypy_runner java_runner
    kotlin_runner csharp_runner zig_runner ruby_runner php_runner haskell_runner dart_runner
    scala_runner javascript_runner typescript_runner sql_runner with_args with_stdin with_time_limit
    with_memory_limit with_max_output Config.new
get_run_command-RunsWithin SupportedLanguage.c bin stdin ms bytes = record {
  fed = refl;
  timed = refl;
  wall = refl;
  limited = refl;
  output = refl;
  untrusted = refl;
  offline = refl;
  jailed = refl;
}
get_run_command-RunsWithin _ bin stdin ms bytes = record {
  fed = refl;
  timed = refl;
  wall = refl;
  limited = refl;
  output = refl;
  untrusted = refl;
  offline = refl;
  jailed = refl;
}
