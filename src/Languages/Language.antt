-- ===== src/Languages/Language.antt =====
-- src/languages/mod.rs: the languages, their names and aliases, and the whitelist.
use akiro.Prelude.{Bool, false, ◌||◌, Option, none, some, List, [], ◌∷◌, if◌then◌else◌}
use akiro.Prelude.Text.{Text, codes, text_eq, trim, Lowercase}
use akiro.Prelude.Pieces.{is_empty, split}
use mathlib.Core.Bool.{decide}

pub data SupportedLanguage : Type 0 where
  c cpp rust go python pypy java kotlin csharp zig ruby php haskell dart scala javascript typescript
        sql :
      SupportedLanguage

unfoldable pub SupportedLanguage-discrete : Discrete SupportedLanguage
SupportedLanguage-discrete = hlevel

unfoldable pub one_of : Text → List Text → Bool
one_of s [] = false
one_of s (name ∷ names) = text_eq s name || one_of s names

-- The `match` on the text in lower case.
unfoldable pub from_lower : Text → Option SupportedLanguage
from_lower s =
    if one_of s (codes "c" ∷ [])
    then some c
    else if one_of s (codes "cpp" ∷ codes "c++" ∷ [])
    then some cpp
    else if one_of s (codes "rust" ∷ codes "rs" ∷ [])
    then some rust
    else if one_of s (codes "go" ∷ codes "golang" ∷ [])
    then some go
    else if one_of s (codes "python" ∷ codes "py" ∷ codes "python3" ∷ codes "cpython" ∷ [])
    then some python
    else if one_of s (codes "pypy" ∷ codes "pypy3" ∷ [])
    then some pypy
    else if one_of s (codes "java" ∷ [])
    then some java
    else if one_of s (codes "kotlin" ∷ codes "kt" ∷ [])
    then some kotlin
    else if one_of s (codes "csharp" ∷ codes "cs" ∷ codes "c#" ∷ [])
    then some csharp
    else if one_of s (codes "zig" ∷ [])
    then some zig
    else if one_of s (codes "ruby" ∷ codes "rb" ∷ [])
    then some ruby
    else if one_of s (codes "php" ∷ [])
    then some php
    else if one_of s (codes "haskell" ∷ codes "hs" ∷ codes "ghc" ∷ [])
    then some haskell
    else if one_of s (codes "dart" ∷ [])
    then some dart
    else if one_of s (codes "scala" ∷ codes "scalac" ∷ [])
    then some scala
    else if one_of s (codes "javascript" ∷ codes "js" ∷ [])
    then some javascript
    else if one_of s (codes "typescript" ∷ codes "ts" ∷ [])
    then some typescript
    else if one_of s (codes "sql" ∷ codes "sqlite" ∷ codes "sqlite3" ∷ [])
    then some sql
    else none

unfoldable pub from_str : Lowercase → Text → Option SupportedLanguage
unfolding from_lower
from_str l s = from_lower (l.to_lowercase s)

unfoldable pub as_str : SupportedLanguage → Text
as_str c = codes "c"
as_str cpp = codes "cpp"
as_str rust = codes "rust"
as_str go = codes "go"
as_str python = codes "python"
as_str pypy = codes "pypy"
as_str java = codes "java"
as_str kotlin = codes "kotlin"
as_str csharp = codes "csharp"
as_str zig = codes "zig"
as_str ruby = codes "ruby"
as_str php = codes "php"
as_str haskell = codes "haskell"
as_str dart = codes "dart"
as_str scala = codes "scala"
as_str javascript = codes "javascript"
as_str typescript = codes "typescript"
as_str sql = codes "sql"

unfoldable pub all_canonical_names : List Text
all_canonical_names =
    codes "c"
    ∷ codes "cpp"
    ∷ codes "rust"
    ∷ codes "go"
    ∷ codes "python"
    ∷ codes "pypy"
    ∷ codes "java"
    ∷ codes "kotlin"
    ∷ codes "csharp"
    ∷ codes "zig"
    ∷ codes "ruby"
    ∷ codes "php"
    ∷ codes "haskell"
    ∷ codes "dart"
    ∷ codes "scala"
    ∷ codes "javascript"
    ∷ codes "typescript"
    ∷ codes "sql"
    ∷ []

-- A `HashSet` of languages is a list with no repetition; its order carries no meaning.
unfoldable pub contains : List SupportedLanguage → SupportedLanguage → Bool
contains [] lang = false
contains (l ∷ ls) lang = decide (SupportedLanguage-discrete l lang) || contains ls lang

unfoldable pub insert : List SupportedLanguage → SupportedLanguage → List SupportedLanguage
unfolding contains
insert ls lang = if contains ls lang then ls else lang ∷ ls

abbrev pub insert_found : List SupportedLanguage → Option SupportedLanguage → List SupportedLanguage
insert_found set none = set
insert_found set (some lang) = insert set lang

-- The loop of `parse_whitelist` over the pieces.
unfoldable pub collect : Lowercase → List SupportedLanguage → List Text → List SupportedLanguage
collect l set [] = set
collect l set (item ∷ items) =
    let trimmed = trim item in
    collect l (if is_empty trimmed then set else insert_found set (from_str l trimmed)) items

unfoldable pub parse_whitelist : Lowercase → Text → List SupportedLanguage
unfolding collect
parse_whitelist l input = collect l [] (split b',' input)
