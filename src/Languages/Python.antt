-- ===== src/Languages/Python.antt =====
-- src/languages/python.rs: the commands that compile and run a submission.
use akiro.Prelude.{false, none, [], ◌∷◌}
use akiro.Prelude.Text.{codes}
use akiro.Prelude.Word.{mebibytes}
use akiro.Languages.Language.{SupportedLanguage}
use akiro.Languages.Runner.{LanguageRunner, default_max_pids}
use akiro.Sandbox.Config.{
  with_args, with_stdin, with_time_limit, with_memory_limit, with_max_output,
}
use akiro.Sandbox.Config

unfoldable pub python_runner : LanguageRunner
python_runner = record {
  language = SupportedLanguage.python;
  is_compiled = false;
  get_source_filename = codes "main.py";
  max_pids = default_max_pids;
  get_compile_command = λ src_path bin_path. none;
  get_run_command = λ bin_path test_stdin time_limit_ms memory_limit_bytes.
      with_max_output (mebibytes 10) (
        with_memory_limit memory_limit_bytes (
          with_time_limit time_limit_ms (
            with_stdin test_stdin (
              with_args (codes "-B" ∷ codes "-O" ∷ bin_path ∷ [])
                (Config.new (codes "/usr/bin/python3"))))));
}

unfoldable pub pypy_runner : LanguageRunner
pypy_runner = record {
  language = SupportedLanguage.pypy;
  is_compiled = false;
  get_source_filename = codes "main.py";
  max_pids = default_max_pids;
  get_compile_command = λ src_path bin_path. none;
  get_run_command = λ bin_path test_stdin time_limit_ms memory_limit_bytes.
      with_max_output (mebibytes 10) (
        with_memory_limit memory_limit_bytes (
          with_time_limit time_limit_ms (
            with_stdin test_stdin (
              with_args (codes "-B" ∷ codes "-O" ∷ bin_path ∷ [])
                (Config.new (codes "/usr/bin/pypy3"))))));
}
