-- ===== src/Languages/Ruby.antt =====
-- src/languages/ruby.rs: the commands that compile and run a submission.
use akiro.Prelude.{false, none, [], ◌∷◌}
use akiro.Prelude.Text.{codes}
use akiro.Prelude.Word.{mebibytes}
use akiro.Languages.Language.{SupportedLanguage}
use akiro.Languages.Runner.{LanguageRunner}
use akiro.Sandbox.Config.{
  with_args, with_stdin, with_time_limit, with_memory_limit, with_max_output,
}
use akiro.Sandbox.Config

unfoldable pub ruby_runner : LanguageRunner
ruby_runner = record {
  language = SupportedLanguage.ruby;
  is_compiled = false;
  get_source_filename = codes "Solution.rb";
  max_pids = 4;
  get_compile_command = λ src_path bin_path. none;
  get_run_command = λ bin_path test_stdin time_limit_ms memory_limit_bytes.
      with_max_output (mebibytes 10) (
        with_memory_limit memory_limit_bytes (
          with_time_limit time_limit_ms (
            with_stdin test_stdin (
              with_args (codes "--disable-gems" ∷ bin_path ∷ [])
                (Config.new (codes "/usr/bin/ruby"))))));
}
