-- ===== src/Languages.antt =====
-- src/languages/: the languages, and for each the commands that compile and run a submission.
pub mod Language
pub mod Runner
pub mod Names
pub mod Commands
pub mod CCpp
pub mod Rust
pub mod Golang
pub mod Python
pub mod Java
pub mod Kotlin
pub mod CSharp
pub mod Zig
pub mod Ruby
pub mod Php
pub mod Haskell
pub mod Dart
pub mod Scala
pub mod JavaScript
pub mod Sql
use Language.{SupportedLanguage}
use Runner.{LanguageRunner}
use CCpp.{c_runner, cpp_runner}
use Rust.{rust_runner}
use Golang.{go_runner}
use Python.{python_runner, pypy_runner}
use Java.{java_runner}
use Kotlin.{kotlin_runner}
use CSharp.{csharp_runner}
use Zig.{zig_runner}
use Ruby.{ruby_runner}
use Php.{php_runner}
use Haskell.{haskell_runner}
use Dart.{dart_runner}
use Scala.{scala_runner}
use JavaScript.{javascript_runner, typescript_runner}
use Sql.{sql_runner}

unfoldable pub get_runner : SupportedLanguage → LanguageRunner
get_runner SupportedLanguage.c = c_runner
get_runner SupportedLanguage.cpp = cpp_runner
get_runner SupportedLanguage.rust = rust_runner
get_runner SupportedLanguage.go = go_runner
get_runner SupportedLanguage.python = python_runner
get_runner SupportedLanguage.pypy = pypy_runner
get_runner SupportedLanguage.java = java_runner
get_runner SupportedLanguage.kotlin = kotlin_runner
get_runner SupportedLanguage.csharp = csharp_runner
get_runner SupportedLanguage.zig = zig_runner
get_runner SupportedLanguage.ruby = ruby_runner
get_runner SupportedLanguage.php = php_runner
get_runner SupportedLanguage.haskell = haskell_runner
get_runner SupportedLanguage.dart = dart_runner
get_runner SupportedLanguage.scala = scala_runner
get_runner SupportedLanguage.javascript = javascript_runner
get_runner SupportedLanguage.typescript = typescript_runner
get_runner SupportedLanguage.sql = sql_runner
