-- ===== src/Agents/Files/Window.antt =====
-- What `read_file` shows of a file.
use dependabot_harness.Prelude.{
  ℕ, zero, suc, ◌+◌, ◌-◌, ◌≤◌, ◌<◌, ◌≡◌, refl, sym, subst, inl, inr, true, false, String, Option,
  none, some, List, [], ◌∷◌, Text, length, get_elem?, ltb, arith, Bool-cases, Option-cases, ok, err,
  Result-cases,
}
use dependabot_harness.Agents.Files.{
  ℤ, pos, negsuc, RepoFile, Line, ReadResult, lines_of, index_error, no_such_file, cannot_stat,
  too_large, past_end, max_read_lines, max_file_bytes, first_line, last_line, range_length,
  numbered, read_lines, read_file,
}

get_elem?-eq-some :
    (lines : List Text) (i : ℕ) → i < length lines → (line : Text) × (get_elem? lines i ≡ some line)
get_elem?-eq-some [] i h = absurd (omega (arith, h))
get_elem?-eq-some (x ∷ lines) zero h = (x, refl)
get_elem?-eq-some (x ∷ lines) (suc i) h = get_elem?-eq-some lines i (omega (arith, h))

-- Numbered lines of the file, from a first number on.
abbrev AreLines : List Text → ℕ → List Line → Type 0
AreLines lines start [] = Unit
AreLines lines start ((n, line) ∷ rest) =
    (start ≤ n)
    × (n ≤ length lines)
    × (get_elem? lines (n - 1) ≡ some line)
    × AreLines lines start rest

AreLines-later :
    (lines : List Text) (a b : ℕ) (ls : List Line)
    → a ≤ b
    → AreLines lines b ls
    → AreLines lines a ls
AreLines-later lines a b [] h r = tt
AreLines-later lines a b ((n, line) ∷ ls) h (low, high, at, rest) =
    (omega (arith, low, h), high, at, AreLines-later lines a b ls h rest)

numbered_lem :
    (lines : List Text) (count n : ℕ)
    → 1 ≤ n
    → n + count ≤ length lines + 1
    → (ls : List Line) × (numbered lines count n ≡ some ls)
      × (length ls ≡ count)
      × AreLines lines n ls
unfolding numbered
numbered_lem lines zero n low high = ([], refl, refl, tt)
numbered_lem lines (suc count) n low high =
    let (line, found) = get_elem?-eq-some lines (n - 1) (omega (arith, low, high)) in
    let (ls, rest, long, are) =
      numbered_lem lines count (n + 1) (omega (arith, low)) (omega (arith, high)) in
    (
      (n, line) ∷ ls,
      rw (numbered, found, rest) refl,
      omega (arith, long),
      (
        omega arith,
        omega (arith, high, low),
        found,
        AreLines-later lines n (n + 1) ls (omega arith) are,
      ),
    )

first_line_pos : (from : Option ℤ) → 1 ≤ first_line from
unfolding first_line
first_line_pos none = omega arith
first_line_pos (some (pos zero)) = omega arith
first_line_pos (some (pos (suc n))) = omega arith
first_line_pos (some (negsuc n)) = omega arith

-- The range stays within the file and within the limit.
range_bounds :
    (total start : ℕ) (to : Option ℤ)
    → start ≤ total
    → (start + range_length start (last_line total start to) ≤ total + 1)
      × (range_length start (last_line total start to) ≤ max_read_lines)
unfolding range_length last_line
range_bounds total start none h = omega arith
range_bounds total start (some (pos zero)) h = omega arith
range_bounds total start (some (pos (suc n))) h = omega arith
range_bounds total start (some (negsuc n)) h = omega arith

-- What a result says of the file that the path resolves to: the lines are numbered lines of a file
-- within the size limit, no more of them than the limit, and no read is out of range.
abbrev pub Shows : (Text → Option RepoFile) → Text → ReadResult → Type 0
Shows resolve path (lines_of start last ls) =
    (file : RepoFile) × (resolve path ≡ some file)
    × (file.is_file ≡ true)
    × (size : ℕ) × (file.size ≡ ok size)
    × (size ≤ max_file_bytes)
    × (1 ≤ start)
    × (length ls ≤ max_read_lines)
    × AreLines file.lines start ls
Shows resolve path index_error = ⊥
Shows resolve path _ = Unit

read_lines_lem :
    (resolve : Text → Option RepoFile) (path : Text) (file : RepoFile) (size : ℕ)
    (from to : Option ℤ)
    → resolve path ≡ some file
    → file.is_file ≡ true
    → file.size ≡ ok size
    → size ≤ max_file_bytes
    → Shows resolve path (read_lines file.lines from to)
unfolding read_lines
read_lines_lem resolve path file size from to resolved is_one sized small =
    let start = first_line from in
    let total = length file.lines in
    elim (Bool-cases (ltb total start)) [
      | inl past ↦ subst (Shows resolve path) (sym (past_case total past)) tt
      | inr within ↦
          let low = first_line_pos from in
          let (high, short) = range_bounds total start to (ground (arith, within)) in
          let (ls, found, long, are) =
            numbered_lem file.lines (range_length start (last_line total start to)) start low
              high in
          subst (Shows resolve path) (sym (inside_case within ls found))
            (file, resolved, is_one, size, sized, small, low, omega (arith, long, short), are)
    ]
  where
    past_case :
        (total : ℕ)
        → ltb (length file.lines) (first_line from) ≡ true
        → read_lines file.lines from to ≡ past_end (length file.lines) (first_line from)
    past_case total past = rw (read_lines, past) refl

    inside_case :
        ltb (length file.lines) (first_line from) ≡ false
        → (ls : List Line)
        → numbered file.lines
            (range_length (first_line from) (last_line (length file.lines) (first_line from) to))
            (first_line from)
          ≡ some ls
        → read_lines file.lines from to
          ≡ lines_of (first_line from) (last_line (length file.lines) (first_line from) to) ls
    inside_case within ls found = rw (read_lines, within, found) refl

-- Whatever the model asks for, what `read_file` shows are at most 200 numbered lines of a file of the
-- checkout that is within the size limit, each with its number, and no read is out of range.
pub read_file-Shows :
    (resolve : Text → Option RepoFile) (path : Text) (from to : Option ℤ)
    → Shows resolve path (read_file (some resolve) path from to)
unfolding read_file
read_file-Shows resolve path from to = elim (Option-cases (resolve path)) [
  | inl away ↦ rw (read_file, away) tt
  | inr (file, resolved) ↦ elim (Bool-cases file.is_file) [
    | inr no_file ↦ subst (Shows resolve path) (sym (case_no_file file resolved no_file)) tt
    | inl is_one ↦ elim (Result-cases file.size) [
      | inr (e, threw) ↦
          subst (Shows resolve path) (sym (case_threw file e resolved is_one threw)) tt
      | inl (size, sized) ↦ elim (Bool-cases (ltb max_file_bytes size)) [
        | inl large ↦
            subst (Shows resolve path) (sym (case_large file size resolved is_one sized large)) tt
        | inr small ↦
            subst (Shows resolve path) (sym (case_small file size resolved is_one sized small)) (
              read_lines_lem resolve path file size from to resolved is_one sized
                (ground (arith, small)))
      ]
    ]
  ]
]
  where
    case_no_file :
        (file : RepoFile)
        → resolve path ≡ some file
        → file.is_file ≡ false
        → read_file (some resolve) path from to ≡ no_such_file
    case_no_file file a b = ground (arith, a, b)

    case_threw :
        (file : RepoFile) (e : String)
        → resolve path ≡ some file
        → file.is_file ≡ true
        → file.size ≡ err e
        → read_file (some resolve) path from to ≡ cannot_stat
    case_threw file e a b c = ground (arith, a, b, c)

    case_large :
        (file : RepoFile) (size : ℕ)
        → resolve path ≡ some file
        → file.is_file ≡ true
        → file.size ≡ ok size
        → ltb max_file_bytes size ≡ true
        → read_file (some resolve) path from to ≡ too_large size
    case_large file size a b c d = ground (arith, a, b, c, d)

    case_small :
        (file : RepoFile) (size : ℕ)
        → resolve path ≡ some file
        → file.is_file ≡ true
        → file.size ≡ ok size
        → ltb max_file_bytes size ≡ false
        → read_file (some resolve) path from to ≡ read_lines file.lines from to
    case_small file size a b c d = ground (arith, a, b, c, d)
