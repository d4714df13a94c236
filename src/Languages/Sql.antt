-- ===== src/Languages/Sql.antt =====
-- src/languages/sql.rs: the commands that compile and run a submission.
use akiro.Prelude.{ℕ, false, none, [], ◌∷◌, ◌++◌}
use akiro.Prelude.Text.{Text, codes}
use akiro.Prelude.Word.{mebibytes}
use akiro.Languages.Language.{SupportedLanguage}
use akiro.Languages.Runner.{LanguageRunner}
use akiro.Sandbox.Config.{
  with_args, with_stdin, with_time_limit, with_memory_limit, with_max_output,
}
use akiro.Sandbox.Config

abbrev newline : ℕ
newline = 10

-- The lines of the shell script.
script : Text
script =
    newline
    ∷ ((codes "            (" ++ (newline ∷ []))
        ++ ((codes "                if [ -f /sandbox/init.sql ]; then cat /sandbox/init.sql; fi"
              ++ (newline ∷ []))
            ++ ((codes "                cat /sandbox/solution.sql" ++ (newline ∷ []))
                ++ ((codes
                        "                if [ -f /sandbox/verify.sql ]; then cat /sandbox/verify.sql; fi"
                      ++ (newline ∷ []))
                    ++ ((codes "                cat -" ++ (newline ∷ []))
                        ++ ((codes "            ) | sqlite3 -safe -header -csv :memory:"
                              ++ (newline ∷ []))
                            ++ (codes "        ")))))))

unfoldable pub sql_runner : LanguageRunner
unfolding script
sql_runner = record {
  language = SupportedLanguage.sql;
  is_compiled = false;
  get_source_filename = codes "solution.sql";
  max_pids = 16;
  get_compile_command = λ src_path bin_path. none;
  get_run_command = λ bin_path test_stdin time_limit_ms memory_limit_bytes.
      with_max_output (mebibytes 10) (
        with_memory_limit memory_limit_bytes (
          with_time_limit time_limit_ms (
            with_stdin test_stdin
              (with_args (codes "-c" ∷ script ∷ []) (Config.new (codes "/bin/sh"))))));
}
