-- ===== src/EnvFile/Loaded.antt =====
-- What a load changes of the environment.
use dependabot_harness.Prelude.{
  ℕ, ◌+◌, ◌≡◌, refl, ap, subst, ◌∙◌, inl, inr, true, false, Option, none, some, List, [], ◌∷◌, Text,
  any, nat_beq, arith, Bool-cases, Result, ok, err, Result-cases, ◌==◌, text_eq, text_beq_iff,
}
use dependabot_harness.Version.Parse.{strip, partition}
use dependabot_harness.EnvFile.{
  EnvFileError, is_name, unquote, Values, lookup, put, without_export, parse_assignment, parse_line,
  parse_lines, parse_env_file, Environment, is_set, assign, load_values, load_env_file,
}

-- No name stands twice.
abbrev IsDistinct : Values → Type 0
IsDistinct [] = Unit
IsDistinct ((n, v) ∷ rest) = (lookup n rest ≡ none) × IsDistinct rest

lookup-put_ne :
    (name other value : Text) (values : Values)
    → (name == other) ≡ false
    → lookup other (put name value values) ≡ lookup other values
unfolding lookup put
lookup-put_ne name other value [] h = ground (arith, h)
lookup-put_ne name other value ((n, v) ∷ rest) h = ground (
  arith,
  h,
  text_beq_iff n name,
  text_beq_iff n other,
  text_beq_iff name other,
  lookup-put_ne name other value rest h,
)

put-IsDistinct :
    (name value : Text) (values : Values) → IsDistinct values → IsDistinct (put name value values)
unfolding lookup put
put-IsDistinct name value [] d = (refl, tt)
put-IsDistinct name value ((n, v) ∷ rest) (fresh, d) = elim (Bool-cases (n == name)) [
  | inl same ↦ rw (put, same) (fresh, d)
  | inr differs ↦
      let apart : (name == n) ≡ false =
        ground (arith, differs, text_beq_iff n name, text_beq_iff name n) in
      rw (put, differs)
        (lookup-put_ne name n value rest apart ∙ fresh, put-IsDistinct name value rest d)
]

-- A result's values are distinct.
abbrev IsFine : Result EnvFileError Values → Type 0
IsFine (err e) = Unit
IsFine (ok values) = IsDistinct values

parse_assignment-IsFine :
    (number : ℕ) (line : Text) (values : Values)
    → IsDistinct values
    → IsFine (parse_assignment number line values)
unfolding parse_assignment
parse_assignment-IsFine number line values d =
    let name = strip (partition b'=' line).0 in
    elim (Bool-cases (any (nat_beq b'=') line)) [
      | inr bare ↦ rw (parse_assignment, bare) tt
      | inl split_at ↦ elim (Bool-cases (is_name name)) [
        | inr bad ↦ rw (parse_assignment, split_at, bad) tt
        | inl good ↦ elim (Result-cases (unquote number (strip (partition b'=' line).1))) [
          | inr (e, raises) ↦ rw (parse_assignment, split_at, good, raises) tt
          | inl (value, read) ↦
              rw (parse_assignment, split_at, good, read) (put-IsDistinct name value values d)
        ]
      ]
    ]

parse_line-IsFine :
    (number : ℕ) (line : Text) (values : Values)
    → IsDistinct values
    → IsFine (parse_line number line values)
unfolding parse_line
parse_line-IsFine number [] values d = d
parse_line-IsFine number (c ∷ s) values d = elim (Bool-cases (nat_beq c b'#')) [
  | inl comment ↦ rw (parse_line, comment) d
  | inr assigns ↦
      rw (parse_line, assigns) (parse_assignment-IsFine number (without_export (c ∷ s)) values d)
]

parse_lines-IsFine :
    (number : ℕ) (lines : List Text) (values : Values)
    → IsDistinct values
    → IsFine (parse_lines number lines values)
unfolding parse_lines
parse_lines-IsFine number [] values d = d
parse_lines-IsFine number (raw ∷ lines) values d =
    let fine = parse_line-IsFine number (strip raw) values d in
    elim (Result-cases (parse_line number (strip raw) values)) [
      | inr (e, raises) ↦ rw (parse_lines, raises) tt
      | inl (next, read) ↦
          rw (parse_lines, read)
            (parse_lines-IsFine (number + 1) lines next (subst IsFine read fine))
    ]

-- What one name has after a load: what it had where that is not empty, else the file's value where
-- it has one.
abbrev pub IsLoaded : Values → Environment → Environment → Text → Type 0
IsLoaded values env after name =
    (is_set (env name) ≡ true → after name ≡ env name)
    × (lookup name values ≡ none → after name ≡ env name)
    × ((v : Text) → is_set (env name) ≡ false → lookup name values ≡ some v → after name ≡ some v)

load_values-IsLoaded :
    (values : Values) (env : Environment) (name : Text)
    → IsDistinct values
    → IsLoaded values env (load_values values env) name
unfolding load_values lookup
load_values-IsLoaded [] env name d =
    (λ h. refl, λ h. refl, λ v h found. absurd (ground (arith, found)))
load_values-IsLoaded ((n, v) ∷ rest) env name (fresh, d) = elim (Bool-cases (n == name)) [
  | inl same ↦
      let e : n ≡ name = (text_beq_iff n name).0 same in
      elim (Bool-cases (is_set (env n))) [
        | inl set_already ↦
            let holds : is_set (env name) ≡ true =
              subst (λ (t : Text). is_set (env t) ≡ true) e set_already in
            let (keeps, others, gives) = load_values-IsLoaded rest env name d in
            rw (set_already, same)
              (
                λ h. keeps holds,
                λ h. absurd (ground (arith, h)),
                λ v' h found. absurd (ground (arith, h, holds)),
              )
        | inr open_name ↦
            let lacks : is_set (env name) ≡ false =
              subst (λ (t : Text). is_set (env t) ≡ false) e open_name in
            let has : assign n v env name ≡ some v = rw same refl in
            let (keeps, others, gives) = load_values-IsLoaded rest (assign n v env) name d in
            let stays = others (subst (λ (t : Text). lookup t rest ≡ none) e fresh) in
            rw (open_name, same)
              (
                λ h. absurd (ground (arith, h, lacks)),
                λ h. absurd (ground (arith, h)),
                λ v' h found. stays ∙ has ∙ found,
              )
      ]
  | inr differs ↦ elim (Bool-cases (is_set (env n))) [
    | inl set_already ↦ rw (set_already, differs) (load_values-IsLoaded rest env name d)
    | inr open_name ↦
        let same_value : assign n v env name ≡ env name = rw differs refl in
        let (keeps, others, gives) = load_values-IsLoaded rest (assign n v env) name d in
        rw (open_name, differs)
          (
            λ h. keeps (ap is_set same_value ∙ h) ∙ same_value,
            λ h. others h ∙ same_value,
            λ v' h found. gives v' (ap is_set same_value ∙ h) found,
          )
  ]
]

-- A load that succeeds has read the lines of a file that is there and readable, and every line
-- parses. What a name had in the environment stays where it is not empty; else the name has the
-- file's value where the file has one, and is as it was where it has none.
pub load_env_file-IsLoaded :
    (file : Option (Option (List Text))) (env after : Environment) (name : Text)
    → load_env_file file env ≡ ok after
    → (lines : List Text) × (file ≡ some (some lines))
      × (values : Values) × (parse_lines 1 lines [] ≡ ok values)
      × IsLoaded values env after name
unfolding load_env_file parse_env_file
load_env_file-IsLoaded none env after name loaded = absurd (ground (arith, loaded))
load_env_file-IsLoaded (some none) env after name loaded = absurd (ground (arith, loaded))
load_env_file-IsLoaded (some (some lines)) env after name loaded =
    elim (Result-cases (parse_lines 1 lines [])) [
      | inr (e, raises) ↦
          let ended = rw (load_env_file, raises) at loaded in absurd (ground (arith, ended))
      | inl (values, read) ↦
          let ended : ok (load_values values env) ≡ ok after = rw (load_env_file, read) at loaded in
          (
            lines,
            refl,
            values,
            read,
            subst (λ (x : Environment). IsLoaded values env x name) (ap (value_of env) ended)
                (load_values-IsLoaded values env name
                  (subst IsFine read (parse_lines-IsFine 1 lines [] tt))),
          )
    ]
  where
    value_of : Environment → Result EnvFileError Environment → Environment
    value_of other (ok x) = x
    value_of other (err e) = other
