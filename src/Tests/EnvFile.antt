-- ===== src/Tests/EnvFile.antt =====
-- A file of three lines, and the quoting of values.
use dependabot_harness.Prelude.{
  ◌≡◌, refl, Option, none, some, List, [], ◌∷◌, Text, codes, ok, err, ◌==◌, text_eq, if◌then◌else◌,
}
use dependabot_harness.EnvFile.{
  EnvFileError, no_separator, unbalanced_quote, Values, Environment, unquote, parse_env_file,
  parse_lines, load_values, load_env_file,
}
use dependabot_harness.EnvFile.Loaded.{IsLoaded, load_env_file-IsLoaded}

abbrev sample_lines : List Text
sample_lines =
    codes "# keys" ∷ codes "export A_KEY = 'one'" ∷ codes "B=two" ∷ codes " A_KEY=three " ∷ []

abbrev sample_file : Option (Option (List Text))
sample_file = some (some sample_lines)

abbrev sample_values : Values
sample_values = (codes "A_KEY", codes "three") ∷ (codes "B", codes "two") ∷ []

abbrev platform : Environment
platform = λ name. if name == codes "B" then some (codes "kept") else none

parsed_sample : parse_env_file (some (some sample_lines)) ≡ ok sample_values
unfolding parse_env_file dependabot_harness.Util.starts_with dependabot_harness.EnvFile.is_name
    dependabot_harness.EnvFile.put
parsed_sample = refl

bare_line : parse_env_file (some (some (codes "A_KEY" ∷ []))) ≡ err (no_separator 1)
unfolding parse_env_file dependabot_harness.Util.starts_with
bare_line = refl

half_quoted : unquote 4 (codes "\"one") ≡ err (unbalanced_quote 4)
unfolding unquote
half_quoted = refl

-- In double quotes an escaped backslash before an n is read as a backslash and a newline.
escaped_backslash : unquote 1 (34 ∷ b'C' ∷ 92 ∷ 92 ∷ b'n' ∷ 34 ∷ []) ≡ ok (b'C' ∷ 92 ∷ 10 ∷ [])
unfolding unquote dependabot_harness.EnvFile.replace_pair
escaped_backslash = refl

load_env_file-IsLoaded_example :
    (lines : List Text) × (sample_file ≡ some (some lines))
    × (values : Values) × (parse_lines 1 lines [] ≡ ok values)
    × IsLoaded values platform (load_values sample_values platform) (codes "B")
unfolding load_env_file dependabot_harness.Util.starts_with dependabot_harness.EnvFile.is_name
    dependabot_harness.EnvFile.put
load_env_file-IsLoaded_example =
    load_env_file-IsLoaded sample_file platform (load_values sample_values platform) (codes "B")
      refl
