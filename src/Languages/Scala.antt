-- ===== src/Languages/Scala.antt =====
-- src/languages/scala.rs: the commands that compile and run a submission.
use akiro.Prelude.{true, some, [], ◌∷◌, ◌++◌}
use akiro.Prelude.Text.{codes}
use akiro.Prelude.Word.{mebibytes}
use akiro.Prelude.FilePath.{parent_or}
use akiro.Languages.Language.{SupportedLanguage}
use akiro.Languages.Runner.{LanguageRunner}
use akiro.Sandbox.Config.{
  with_args, with_stdin, with_time_limit, with_memory_limit, with_max_output,
}
use akiro.Sandbox.Config

unfoldable pub scala_runner : LanguageRunner
scala_runner = record {
  language = SupportedLanguage.scala;
  is_compiled = true;
  get_source_filename = codes "Solution.scala";
  max_pids = 16;
  get_compile_command = λ src_path bin_path. some (
      with_memory_limit (mebibytes 512) (
        with_time_limit 20000 (
          with_args (codes "-d" ∷ parent_or (codes "/sandbox") bin_path ∷ src_path ∷ [])
            (Config.new (codes "/usr/bin/scalac")))));
  get_run_command = λ bin_path test_stdin time_limit_ms memory_limit_bytes.
      with_max_output (mebibytes 10) (
        with_memory_limit memory_limit_bytes (
          with_time_limit time_limit_ms (
            with_stdin test_stdin (
              with_args
                (codes "-cp"
                  ∷ (parent_or (codes "/sandbox") bin_path
                      ++ codes ":/usr/share/java/scala-library.jar")
                  ∷ codes "-XX:+TieredCompilation"
                  ∷ codes "-XX:TieredStopAtLevel=1"
                  ∷ codes "-XX:+UseSerialGC"
                  ∷ codes "-Xms16m"
                  ∷ codes "-Xmx128m"
                  ∷ codes "Solution"
                  ∷ [])
                (Config.new (codes "/usr/bin/java"))))));
}
