-- ===== src/Version/Parse.antt =====
-- `parse`, `try_parse` of harness/versions.py, over the code points of the string.
use dependabot_harness.Prelude.{
  ℕ, ◌+◌, ◌-◌, ◌*◌, Bool, ◌&&◌, ◌||◌, List, [], ◌∷◌, ◌++◌, Option, none, some, map, Text, leb,
  nat_beq, all, text_eq, nat_eq, if◌then◌else◌,
}
use dependabot_harness.Version.{Token, num, word, Version}

-- `\d`
abbrev pub is_digit : ℕ → Bool
is_digit c = leb b'0' c && leb c b'9'

-- What `str.strip` takes off an ASCII string.
abbrev pub is_space : ℕ → Bool
is_space c = (leb 9 c && leb c 13) || (leb 28 c && leb c 32)

abbrev pub lower_char : ℕ → ℕ
lower_char c = if leb 65 c && leb c 90 then c + 32 else c

-- `str.lower`
unfoldable pub lower : Text → Text
lower = map lower_char

unfoldable pub lstrip : Text → Text
lstrip [] = []
lstrip (c ∷ s) = let rest = lstrip s in if is_space c then rest else c ∷ s

unfoldable pub rstrip : Text → Text
rstrip [] = []
rstrip (c ∷ s) =
    let rest = rstrip s in elim rest [ [] ↦ if is_space c then [] else c ∷ [] | d ∷ r ↦ c ∷ d ∷ r ]

unfoldable pub strip : Text → Text
unfolding lstrip rstrip
strip s = rstrip (lstrip s)

-- The longest prefix of digits, and the rest: the match of `^(\d+)`.
unfoldable pub span_digits : Text → Text × Text
span_digits [] = ([], [])
span_digits (c ∷ s) =
    let (head, rest) = span_digits s in if is_digit c then (c ∷ head, rest) else ([], c ∷ s)

-- `s.split(sep)` at one character.
unfoldable pub split : ℕ → Text → List Text
split sep [] = [] ∷ []
split sep (c ∷ s) =
    let rest = split sep s in
    if nat_beq c sep then [] ∷ rest else elim rest [ [] ↦ (c ∷ []) ∷ [] | w ∷ ws ↦ (c ∷ w) ∷ ws ]

-- `before, _, after = s.partition(sep)` at one character.
unfoldable pub partition : ℕ → Text → Text × Text
partition sep [] = ([], [])
partition sep (c ∷ s) =
    let (before, after) = partition sep s in if nat_beq c sep then ([], s) else (c ∷ before, after)

-- `int(digits)`
unfoldable pub to_int : ℕ → Text → ℕ
to_int acc [] = acc
to_int acc (c ∷ s) = to_int (acc * 10 + (c - 48)) s

-- `_LEADING_V.sub("", s)`
strip_v : Text → Text
strip_v [] = []
strip_v (c ∷ s) = if nat_beq c b'v' || nat_beq c b'V' then s else c ∷ s

-- `_EPOCH.sub("", s)`: digits, at least one, and a colon.
strip_epoch : Text → Text
unfolding span_digits
strip_epoch s =
    let (digits, rest) = span_digits s in
    elim digits [
      | [] ↦ s
      | _ ∷ _ ↦ elim rest [ [] ↦ s | c ∷ after ↦ if nat_beq c b':' then after else s ]
    ]

-- `f"{head}.{pre}" if pre else head`
join_pre : Text → Text → Text
join_pre head [] = head
join_pre head (c ∷ pre) = head ++ b'.' ∷ c ∷ pre

-- What one segment does to the loop: extend `release` and go on, extend it and break with a
-- remainder, or break with no number.
pub data Segment : Type 0 where
  whole : ℕ → Segment
  partial : ℕ → Text → Segment
  other : Text → Segment

unfoldable pub read_segment : Text → Segment
unfolding span_digits strip to_int
read_segment segment =
    let cleaned = strip segment in
    let (digits, remainder) = span_digits cleaned in
    elim digits [
      | [] ↦ other cleaned
      | d ∷ ds ↦ elim remainder [
        | [] ↦ whole (to_int 0 (d ∷ ds))
        | c ∷ s ↦ partial (to_int 0 (d ∷ ds)) (c ∷ s)
      ]
    ]

-- The loop over `core.split(".")`; `none` is the VersionError of a first segment with no number.
unfoldable pub read_release : List Text → List ℕ → Text → Option (List ℕ × Text)
unfolding join_pre
read_release [] release pre = some (release, pre)
read_release (segment ∷ rest) release pre = elim (read_segment segment) [
  | whole n ↦ read_release rest (release ++ n ∷ []) pre
  | partial n remainder ↦ some (release ++ n ∷ [], join_pre remainder pre)
  | other cleaned ↦ elim release [ [] ↦ none | n ∷ ns ↦ some (n ∷ ns, join_pre cleaned pre) ]
]

-- `int(token) if _NUMERIC.match(token) else token.lower()`
read_token : Text → Token
unfolding to_int lower
read_token token = if all is_digit token then num (to_int 0 token) else word (lower token)

read_prerelease : List Text → List Token
unfolding strip read_token
read_prerelease [] = []
read_prerelease (chunk ∷ rest) =
    let more = read_prerelease rest in
    elim (strip chunk) [ [] ↦ more | c ∷ token ↦ read_token (c ∷ token) ∷ more ]

underscore_to_dot : Text → Text
underscore_to_dot = map (λ c. if nat_beq c b'_' then b'.' else c)

finish : Text → List ℕ × Text → Option Version
finish raw ([], pre) = none
finish raw (n ∷ ns, pre) = some (record {
  release = n ∷ ns;
  prerelease = read_prerelease (split b'.' (underscore_to_dot pre));
  raw = raw;
})

-- `none` is a raised VersionError.
unfoldable pub parse : Text → Option Version
unfolding strip strip_v strip_epoch partition split read_release read_segment finish join_pre
    read_prerelease underscore_to_dot
parse raw =
    let text = strip_epoch (strip_v (strip raw)) in
    let build_split = (partition b'+' text).0 in
    let (core, pre) = partition b'-' build_split in
    let read = read_release (split b'.' core) [] pre in
    elim text [ [] ↦ none | _ ∷ _ ↦ elim read [ none ↦ none | some r ↦ finish (strip raw) r ] ]

unfoldable pub try_parse : Option Text → Option Version
unfolding parse
try_parse none = none
try_parse (some raw) = parse raw
