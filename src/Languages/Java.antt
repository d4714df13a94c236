-- ===== src/Languages/Java.antt =====
-- src/languages/java.rs: the commands that compile and run a submission.
use akiro.Prelude.{◌/◌, true, some, [], ◌∷◌, ◌++◌}
use akiro.Prelude.Text.{codes}
use akiro.Prelude.Word.{mebibytes}
use akiro.Prelude.Decimal.{decimal}
use akiro.Languages.Language.{SupportedLanguage}
use akiro.Languages.Runner.{LanguageRunner}
use akiro.Sandbox.Config.{
  with_args, with_stdin, with_time_limit, with_memory_limit, with_max_output,
}
use akiro.Sandbox.Config

unfoldable pub java_runner : LanguageRunner
java_runner = record {
  language = SupportedLanguage.java;
  is_compiled = true;
  get_source_filename = codes "Solution.java";
  max_pids = 24;
  get_compile_command = λ src_path bin_path. some (
      with_memory_limit (mebibytes 384)
        (with_time_limit 15000 (with_args (src_path ∷ []) (Config.new (codes "/usr/bin/javac")))));
  get_run_command = λ bin_path test_stdin time_limit_ms memory_limit_bytes.
      with_max_output (mebibytes 10) (
        with_memory_limit memory_limit_bytes (
          with_time_limit time_limit_ms (
            with_stdin test_stdin (
              with_args
                ((codes "-Xmx" ++ decimal (memory_limit_bytes / 1048576) ++ codes "m")
                  ∷ (codes "-Xms" ++ decimal (memory_limit_bytes / 1048576 / 2) ++ codes "m")
                  ∷ codes "-Xss1m"
                  ∷ codes "-Xshare:on"
                  ∷ codes "-XX:+UseSerialGC"
                  ∷ codes "-XX:TieredStopAtLevel=1"
                  ∷ codes "-XX:ActiveProcessorCount=1"
                  ∷ codes "-XX:CICompilerCount=2"
                  ∷ codes "-cp"
                  ∷ codes "/sandbox"
                  ∷ codes "Solution"
                  ∷ [])
                (Config.new (codes "/usr/bin/java"))))));
}
