-- ===== src/Agents/Files.antt =====
-- `_read_file` and `_grep` of harness/agents/toolbox.py. What the checkout holds is an argument: the
-- file that a path resolves to within the root, and the files of the walk. A match is its path, its
-- line number and the stripped line.
pub mod Window
pub mod Matches
use dependabot_harness.Prelude.{
  ℕ, zero, suc, ◌+◌, ◌-◌, Bool, true, false, not, ◌&&◌, ◌||◌, String, Option, none, some, List, [],
  ◌∷◌, ◌++◌, Text, codes, length, get_elem?, take, any, ltb, leb, min, nat_beq, ◌==◌, text_eq,
  if◌then◌else◌, Result, ok, err,
}
use dependabot_harness.Version.Parse.{strip, split}

-- An integer argument; `negsuc n` is -(n + 1).
pub data ℤ : Type 0 where
  pos : ℕ → ℤ
  negsuc : ℕ → ℤ

abbrev pub max_read_lines : ℕ
max_read_lines = 200

abbrev pub max_grep_matches : ℕ
max_grep_matches = 40

abbrev pub max_grep_files : ℕ
max_grep_files = 2000

abbrev pub max_file_bytes : ℕ
max_file_bytes = 2000000

abbrev pub max_grep_bytes : ℕ
max_grep_bytes = 8000000

-- A path of the checkout: `is_file`, `stat().st_size`, and the lines of the text.
pub record RepoFile : Type 0 where
  pub is_file : Bool
  pub size : Result String ℕ
  pub lines : List Text

abbrev pub Line : Type 0
Line = ℕ × Text

pub data ReadResult : Type 0 where
  no_checkout outside no_such_file cannot_stat : ReadResult
  too_large : ℕ → ReadResult
  past_end : ℕ → ℕ → ReadResult
  index_error : ReadResult
  lines_of : ℕ → ℤ → List Line → ReadResult

-- `max(1, int(start or 1))`
unfoldable pub first_line : Option ℤ → ℕ
first_line none = 1
first_line (some (pos zero)) = 1
first_line (some (pos (suc n))) = suc n
first_line (some (negsuc n)) = 1

-- `min(len(lines), int(end or start + 199), start + 199)`
unfoldable pub last_line : ℕ → ℕ → Option ℤ → ℤ
last_line total start none = pos (min total (start + max_read_lines - 1))
last_line total start (some (pos zero)) = pos (min total (start + max_read_lines - 1))
last_line total start (some (pos (suc n))) =
    pos (min total (min (suc n) (start + max_read_lines - 1)))
last_line total start (some (negsuc n)) = negsuc n

-- The length of `range(start, end + 1)`.
unfoldable pub range_length : ℕ → ℤ → ℕ
range_length start (pos last) = last + 1 - start
range_length start (negsuc n) = 0

-- `lines[n - 1]` for `count` numbers from `n`; `none` is an IndexError.
unfoldable pub numbered : List Text → ℕ → ℕ → Option (List Line)
numbered lines zero n = some []
numbered lines (suc count) n = elim (get_elem? lines (n - 1)) [
  | none ↦ none
  | some line ↦ elim (numbered lines count (n + 1)) [
    | none ↦ none
    | some rest ↦ some ((n, line) ∷ rest)
  ]
]

abbrev body_of : ℕ → ℤ → Option (List Line) → ReadResult
body_of start last none = index_error
body_of start last (some lines) = lines_of start last lines

-- What follows the checks of the file.
unfoldable pub read_lines : List Text → Option ℤ → Option ℤ → ReadResult
read_lines lines from to =
    let start = first_line from in
    let last = last_line (length lines) start to in
    if ltb (length lines) start
    then past_end (length lines) start
    else body_of start last (numbered lines (range_length start last) start)

-- `_read_file`: without a checkout there is no `resolve`.
unfoldable pub read_file : Option (Text → Option RepoFile) → Text → Option ℤ → Option ℤ → ReadResult
read_file none path from to = no_checkout
read_file (some resolve) path from to = elim (resolve path) [
  | none ↦ outside
  | some file ↦ if not file.is_file then no_such_file else elim file.size [
    | err e ↦ cannot_stat
    | ok size ↦ if ltb max_file_bytes size then too_large size else read_lines file.lines from to
  ]
]

-- `_escapes`
unfoldable pub escapes : Text → Bool
unfolding strip split
escapes glob = elim (strip glob) [
  | [] ↦ true
  | c ∷ text ↦
      nat_beq c b'~' || (nat_beq c b'/' || any (λ part. part == codes "..") (split b'/' (c ∷ text)))
]

-- A file of the walk: its path, whether the path resolves within the root, its size, and its lines.
pub record WalkedFile : Type 0 where
  pub path : Text
  pub resolves : Bool
  pub size : Result String ℕ
  pub lines : Result String (List Text)

abbrev pub Match : Type 0
Match = Text × (ℕ × Text)

pub record GrepState : Type 0 where
  pub scanned : ℕ
  pub loaded : ℕ
  pub matches : List Match

abbrev shown : Text → Text
shown line = take 200 (strip line)

-- The loop over the lines, which stops at the cap.
unfoldable pub grep_lines : (Text → Bool) → Text → ℕ → List Text → List Match → List Match
grep_lines pattern path n [] found = found
grep_lines pattern path n (line ∷ lines) found =
    let rest = grep_lines pattern path (n + 1) lines found in
    let more = found ++ (path, (n, shown line)) ∷ [] in
    let later = grep_lines pattern path (n + 1) lines more in
    if pattern line then if leb max_grep_matches (length more) then more else later else rest

abbrev count_file : GrepState → GrepState
count_file s = record s { scanned = s.scanned + 1 }

-- One file of the walk, after the test of the caps.
unfoldable pub grep_file : (Text → Bool) → (Text → Bool) → WalkedFile → GrepState → GrepState
grep_file pattern matches_glob file s =
    if not (matches_glob file.path) || not file.resolves then s else elim file.size [
      | err e ↦ count_file s
      | ok size ↦ if ltb max_file_bytes size then count_file s else elim file.lines [
        | err e ↦ count_file s
        | ok lines ↦ record {
          scanned = s.scanned + 1;
          loaded = s.loaded + size;
          matches = grep_lines pattern file.path 1 lines s.matches;
        }
      ]
    ]

abbrev pub at_cap : GrepState → Bool
at_cap s =
    leb max_grep_files s.scanned
    || (leb max_grep_matches (length s.matches) || leb max_grep_bytes s.loaded)

-- The loop over the files; `budget <= 0` is that the cap of bytes is reached.
unfoldable pub grep_files : (Text → Bool) → (Text → Bool) → List WalkedFile → GrepState → GrepState
grep_files pattern matches_glob [] s = s
grep_files pattern matches_glob (file ∷ files) s =
    let rest = grep_files pattern matches_glob files (grep_file pattern matches_glob file s) in
    if at_cap s then s else rest

pub data GrepResult : Type 0 where
  no_checkout invalid_pattern escaping_glob no_matches : GrepResult
  matched : List Match → GrepResult

abbrev default_glob : Option Text → Text
default_glob none = codes "*"
default_glob (some []) = codes "*"
default_glob (some (c ∷ s)) = c ∷ s

abbrev pub no_files : GrepState
no_files = record { scanned = 0; loaded = 0; matches = [] }

abbrev report : List Match → GrepResult
report [] = no_matches
report (m ∷ ms) = matched (m ∷ ms)

-- `_grep`; `compile` and `_matches_glob` are arguments.
unfoldable pub grep :
    Option (List WalkedFile)
    → (Text → Option (Text → Bool))
    → (Text → Text → Bool)
    → Text
    → Option Text
    → GrepResult
unfolding escapes
grep none compile matches_glob pattern glob = GrepResult.no_checkout
grep (some files) compile matches_glob pattern glob = elim (compile pattern) [
  | none ↦ invalid_pattern
  | some matches ↦
      if escapes (default_glob glob)
      then escaping_glob
      else report
          (grep_files matches (λ path. matches_glob path (default_glob glob)) files
            no_files).matches
]
