-- ===== src/Sources/Patched.antt =====
-- `_patched_version` of harness/sources/osv_scan.py: the fix that an advisory names for the branch an
-- installed version is on.
pub mod Events
pub mod Above
use dependabot_harness.Prelude.{
  Bool, true, false, not, ◌&&◌, Option, none, some, List, [], ◌∷◌, ◌++◌, Text, filter, ◌==◌,
  text_eq, if◌then◌else◌,
}
use dependabot_harness.Version.{Version, lt_version, le_version, gt_version}
use dependabot_harness.Version.Parse.{try_parse}

-- The keys of an event that are read; an empty `fixed` is none.
pub record Event : Type 0 where
  pub introduced : Option Text
  pub fixed : Option Text

pub record Affected : Type 0 where
  pub package_name : Option Text
  pub ranges : List (List Event)

abbrev pub Candidate : Type 0
Candidate = Version × Text

-- The loops either return from the function, or go on with the candidates.
pub data Search : Type 0 where
  hit : Text → Search
  more : List Candidate → Search

-- `introduced` after an event.
abbrev pub last_introduced : Event → Option Version → Option Version
last_introduced event old = elim event.introduced [ none ↦ old | some text ↦ try_parse (some text) ]

-- `current is not None and introduced is not None and introduced <= current < fixed`
abbrev pub in_branch : Option Version → Option Version → Version → Bool
in_branch none introduced fixed = false
in_branch (some current) none fixed = false
in_branch (some current) (some introduced) fixed =
    le_version introduced current && lt_version current fixed

abbrev is_empty : Text → Bool
is_empty [] = true
is_empty (c ∷ s) = false

-- `event.get("fixed")`, with its version, if it is there, not empty, and parses.
unfoldable pub fix_of : Event → Option Candidate
fix_of event = elim event.fixed [
  | none ↦ none
  | some text ↦
      if is_empty text
      then none
      else elim (try_parse (some text)) [ none ↦ none | some version ↦ some (version, text) ]
]

-- The loop over the events of a range.
unfoldable pub search_events :
    Option Version → Option Version → List Event → List Candidate → Search
search_events current introduced [] candidates = more candidates
search_events current introduced (event ∷ events) candidates =
    let from = last_introduced event introduced in
    elim (fix_of event) [
      | none ↦ search_events current from events candidates
      | some (version, text) ↦
          let rest = search_events current from events (candidates ++ (version, text) ∷ []) in
          if in_branch current from version then hit text else rest
    ]

unfoldable pub search_ranges : Option Version → List (List Event) → List Candidate → Search
search_ranges current [] candidates = more candidates
search_ranges current (events ∷ ranges) candidates =
    elim (search_events current none events candidates) [
      | hit text ↦ hit text
      | more found ↦ search_ranges current ranges found
    ]

abbrev pub is_package : Text → Affected → Bool
is_package name affected = elim affected.package_name [ none ↦ false | some other ↦ other == name ]

unfoldable pub search_affected : Option Version → Text → List Affected → List Candidate → Search
search_affected current name [] candidates = more candidates
search_affected current name (affected ∷ rest) candidates =
    if is_package name affected
    then elim (search_ranges current affected.ranges candidates) [
      | hit text ↦ hit text
      | more found ↦ search_affected current name rest found
    ]
    else search_affected current name rest candidates

-- `min(pairs, key=lambda pair: pair[0])[1]`: the first of the lowest.
unfoldable pub lowest : Candidate → List Candidate → Candidate
lowest best [] = best
lowest best (c ∷ cs) = lowest (if lt_version c.0 best.0 then c else best) cs

abbrev pub lowest_of : List Candidate → Option Text
lowest_of [] = none
lowest_of (c ∷ cs) = some (lowest c cs).1

abbrev pub above : Version → List Candidate → List Candidate
above current = filter (λ c. gt_version c.0 current)

abbrev pub choose : Option Version → Search → Option Text
choose current (hit text) = some text
choose none (more candidates) = lowest_of candidates
choose (some current) (more candidates) = lowest_of (above current candidates)

-- `_patched_version`
unfoldable pub patched_version : List Affected → Text → Text → Option Text
patched_version affected name installed =
    choose (try_parse (some installed))
      (search_affected (try_parse (some installed)) name affected [])
