-- ===== src/EnvFile.antt =====
-- harness/env_file.py. The lines of the file are an argument, and the environment is a function of the
-- name. A report's names are left out, and so are the texts of errors.
pub mod Loaded
use dependabot_harness.Prelude.{
  ℕ, zero, suc, ◌+◌, Bool, true, false, not, ◌&&◌, ◌||◌, Option, none, some, List, [], ◌∷◌, Text,
  codes, length, any, all, leb, nat_beq, drop, ◌==◌, text_eq, if◌then◌else◌, Result, ok, err,
  is_some,
}
use dependabot_harness.Version.Parse.{strip, lstrip, is_digit, partition}
use dependabot_harness.Util.{starts_with}

pub data EnvFileError : Type 0 where
  not_found unreadable : EnvFileError
  no_separator invalid_name unbalanced_quote : ℕ → EnvFileError

abbrev is_letter : ℕ → Bool
is_letter c = (leb 65 c && leb c 90) || ((leb 97 c && leb c 122) || nat_beq c b'_')

-- `_NAME`
unfoldable pub is_name : Text → Bool
is_name [] = false
is_name (c ∷ s) = is_letter c && all (λ x. is_letter x || is_digit x) s

-- `text.replace(ab, c)` for a pattern of two characters
unfoldable pub replace_pair : ℕ → ℕ → ℕ → Text → Text
replace_pair a b c [] = []
replace_pair a b c (x ∷ []) = x ∷ []
replace_pair a b c (x ∷ y ∷ s) =
    let found = replace_pair a b c s in
    let other = replace_pair a b c (y ∷ s) in
    if nat_beq x a && nat_beq y b then c ∷ found else x ∷ other

-- The text without its last character, and that character.
unfoldable pub unsnoc : ℕ → Text → Text × ℕ
unsnoc c [] = ([], c)
unsnoc c (d ∷ s) = let (front, last) = unsnoc d s in (c ∷ front, last)

abbrev is_quote : ℕ → Bool
is_quote c = nat_beq c 34 || nat_beq c 39

-- `_unquote`; 34 is the double quote and 92 the backslash.
unfoldable pub unquote : ℕ → Text → Result EnvFileError Text
unfolding unsnoc
unquote number [] = ok []
unquote number (c ∷ []) = if is_quote c then err (unbalanced_quote number) else ok (c ∷ [])
unquote number (c ∷ d ∷ s) =
    let (inner, last) = unsnoc d s in
    if nat_beq c last && is_quote c
    then ok (
        if nat_beq c 34
        then replace_pair 92 92 92 (replace_pair 92 b'n' 10 (replace_pair 92 34 34 inner))
        else inner)
    else if is_quote c || is_quote last
    then err (unbalanced_quote number)
    else ok (c ∷ d ∷ s)

abbrev pub Values : Type 0
Values = List (Text × Text)

unfoldable pub lookup : Text → Values → Option Text
lookup name [] = none
lookup name ((n, v) ∷ rest) = let later = lookup name rest in if n == name then some v else later

-- `values[name] = value`
unfoldable pub put : Text → Text → Values → Values
put name value [] = (name, value) ∷ []
put name value ((n, v) ∷ rest) =
    let later = put name value rest in if n == name then (n, value) ∷ rest else (n, v) ∷ later

abbrev without_export : Text → Text
without_export line = if starts_with line (codes "export ") then lstrip (drop 7 line) else line

-- A line that is neither blank nor a comment.
unfoldable pub parse_assignment : ℕ → Text → Values → Result EnvFileError Values
unfolding unquote partition strip
parse_assignment number line values =
    let (before, after) = partition b'=' line in
    let name = strip before in
    if not (any (nat_beq b'=') line)
    then err (no_separator number)
    else if not (is_name name)
    then err (invalid_name number)
    else elim (unquote number (strip after)) [
      | err e ↦ err e
      | ok value ↦ ok (put name value values)
    ]

unfoldable pub parse_line : ℕ → Text → Values → Result EnvFileError Values
unfolding parse_assignment
parse_line number line values =
    let assigned = parse_assignment number (without_export line) values in
    elim line [ [] ↦ ok values | c ∷ s ↦ if nat_beq c b'#' then ok values else assigned ]

unfoldable pub parse_lines : ℕ → List Text → Values → Result EnvFileError Values
unfolding parse_line
parse_lines number [] values = ok values
parse_lines number (raw ∷ lines) values = elim (parse_line number (strip raw) values) [
  | err e ↦ err e
  | ok next ↦ parse_lines (number + 1) lines next
]

-- `parse_env_file`; `none` is a path that is no file.
unfoldable pub parse_env_file : Option (Option (List Text)) → Result EnvFileError Values
unfolding parse_lines
parse_env_file none = err not_found
parse_env_file (some none) = err unreadable
parse_env_file (some (some lines)) = parse_lines 1 lines []

abbrev pub Environment : Type 0
Environment = Text → Option Text

-- `if target.get(name)`: an empty value counts as none.
abbrev pub is_set : Option Text → Bool
is_set none = false
is_set (some []) = false
is_set (some (c ∷ s)) = true

abbrev pub assign : Text → Text → Environment → Environment
assign name value env = λ n. if name == n then some value else env n

-- The loop of `load_env_file`.
unfoldable pub load_values : Values → Environment → Environment
load_values [] env = env
load_values ((name, value) ∷ rest) env =
    let same = load_values rest env in
    let next = load_values rest (assign name value env) in if is_set (env name) then same else next

unfoldable pub load_env_file :
    Option (Option (List Text)) → Environment → Result EnvFileError Environment
unfolding load_values parse_env_file
load_env_file file env = elim (parse_env_file file) [
  | err e ↦ err e
  | ok values ↦ ok (load_values values env)
]
