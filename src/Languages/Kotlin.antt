-- ===== src/Languages/Kotlin.antt =====
-- src/languages/kotlin.rs: the commands that compile and run a submission.
use akiro.Prelude.{◌/◌, true, some, [], ◌∷◌, ◌++◌}
use akiro.Prelude.Text.{codes}
use akiro.Prelude.Word.{mebibytes}
use akiro.Prelude.Decimal.{decimal}
use akiro.Prelude.FilePath.{join, parent_or}
use akiro.Languages.Language.{SupportedLanguage}
use akiro.Languages.Runner.{LanguageRunner}
use akiro.Sandbox.Config.{
  with_args, with_stdin, with_time_limit, with_memory_limit, with_max_output,
}
use akiro.Sandbox.Config

unfoldable pub kotlin_runner : LanguageRunner
kotlin_runner = record {
  language = SupportedLanguage.kotlin;
  is_compiled = true;
  get_source_filename = codes "Solution.kt";
  max_pids = 24;
  get_compile_command = λ src_path bin_path. some (
      with_memory_limit (mebibytes 512) (
        with_time_limit 15000 (
          with_args
            (codes "-Xmx384m"
              ∷ codes "-XX:+UseSerialGC"
              ∷ codes "-XX:TieredStopAtLevel=1"
              ∷ codes "-cp"
              ∷ codes "/opt/kotlinc/lib/kotlin-compiler.jar"
              ∷ codes "org.jetbrains.kotlin.cli.jvm.K2JVMCompiler"
              ∷ src_path
              ∷ codes "-d"
              ∷ join (parent_or (codes ".") src_path) (codes "Solution.jar")
              ∷ codes "-nowarn"
              ∷ [])
            (Config.new (codes "/usr/bin/java")))));
  get_run_command = λ bin_path test_stdin time_limit_ms memory_limit_bytes.
      with_max_output (mebibytes 10) (
        with_memory_limit memory_limit_bytes (
          with_time_limit time_limit_ms (
            with_stdin test_stdin (
              with_args
                ((codes "-Xmx" ++ decimal (memory_limit_bytes / 1048576) ++ codes "m")
                  ∷ (codes "-Xms" ++ decimal (memory_limit_bytes / 1048576 / 2) ++ codes "m")
                  ∷ codes "-Xss1m"
                  ∷ codes "-XX:+UseSerialGC"
                  ∷ codes "-XX:TieredStopAtLevel=1"
                  ∷ codes "-XX:ActiveProcessorCount=1"
                  ∷ codes "-cp"
                  ∷ codes "/sandbox/Solution.jar:/opt/kotlinc/lib/kotlin-stdlib.jar"
                  ∷ codes "SolutionKt"
                  ∷ [])
                (Config.new (codes "/usr/bin/java"))))));
}
