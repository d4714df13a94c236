-- ===== src/Languages/Zig.antt =====
-- src/languages/zig.rs: the commands that compile and run a submission.
use akiro.Prelude.{true, some, [], ◌∷◌, ◌++◌}
use akiro.Prelude.Text.{codes}
use akiro.Prelude.Word.{mebibytes}
use akiro.Languages.Language.{SupportedLanguage}
use akiro.Languages.Runner.{LanguageRunner}
use akiro.Sandbox.Config.{
  with_args, with_stdin, with_time_limit, with_memory_limit, with_max_output,
}
use akiro.Sandbox.Config

unfoldable pub zig_runner : LanguageRunner
zig_runner = record {
  language = SupportedLanguage.zig;
  is_compiled = true;
  get_source_filename = codes "Solution.zig";
  max_pids = 2;
  get_compile_command = λ src_path bin_path. some (
      with_memory_limit (mebibytes 512) (
        with_time_limit 15000 (
          with_args
            (codes "build-exe"
              ∷ src_path
              ∷ codes "-O"
              ∷ codes "ReleaseFast"
              ∷ (codes "-femit-bin=" ++ bin_path)
              ∷ [])
            (Config.new (codes "/usr/local/bin/zig")))));
  get_run_command = λ bin_path test_stdin time_limit_ms memory_limit_bytes.
      with_max_output (mebibytes 10) (
        with_memory_limit memory_limit_bytes
          (with_time_limit time_limit_ms (with_stdin test_stdin (Config.new bin_path))));
}
