-- ===== src/Sources/Patched/Above.antt =====
-- The fix that is chosen is one that the advisory lists for the package, above the installed version.
use dependabot_harness.Prelude.{
  ◌≡◌, refl, sym, ap, subst, ◌∙◌, ◌⊎◌, inl, inr, true, false, Option, none, some, List, [], ◌∷◌,
  Text, In, here, there, arith, Bool-cases, or_default, if◌then◌else◌,
}
use dependabot_harness.Version.{Version, lt_version, gt_version}
use dependabot_harness.Version.Parse.{try_parse}
use dependabot_harness.Version.Order.{ge-eq-le}
use dependabot_harness.Sources.Patched.{
  Event, Affected, Candidate, Search, hit, more, fix_of, search_events, search_ranges, is_package,
  search_affected, lowest, lowest_of, above, choose, patched_version,
}
use dependabot_harness.Sources.Patched.Events.{
  Sound, Complete, FixOf, either, search_events-Sound, search_events-Complete,
}

-- A fix of one of the ranges.
abbrev pub InRanges : List (List Event) → Candidate → Type 0
InRanges ranges c = (events : List Event) × In events ranges × FixOf events c

-- A fix of the package.
abbrev pub InAffected : Text → List Affected → Candidate → Type 0
InAffected name affected c =
    (entry : Affected) × In entry affected
    × (is_package name entry ≡ true)
    × InRanges entry.ranges c

module _ (current : Option Version) (P : Candidate → Type 0) where
  and_then :
      (Q R S : Candidate → Type 0) (old : List Candidate) (s : Search)
      (next : List Candidate → Search)
      → ((c : Candidate) → S c → Q c ⊎ R c)
      → Sound current P old s
      → Complete current P Q s
      → ((cs : List Candidate)
          → ((c : Candidate) → In c cs → P c)
          → Sound current P cs (next cs) × Complete current P R (next cs))
      → Sound current P old (elim s [ hit text ↦ hit text | more found ↦ next found ])
        × Complete current P S (elim s [ hit text ↦ hit text | more found ↦ next found ])
  and_then Q R S old (hit text) next split sound complete rest = (sound, tt)
  and_then Q R S old (more cs) next split (good, keep) complete rest =
      let (sound, later) = rest cs good in
      (carry old cs (next cs) keep sound, both cs (next cs) complete sound later)
    where
      carry :
          (old cs : List Candidate) (t : Search)
          → ((c : Candidate) → In c old → In c cs)
          → Sound current P cs t
          → Sound current P old t
      carry old cs (hit text) keep h = h
      carry old cs (more ds) keep (good, still) = (good, λ c m. still c (keep c m))

      both :
          (cs : List Candidate) (t : Search)
          → ((c : Candidate) → Q c → In c cs)
          → Sound current P cs t
          → Complete current P R t
          → Complete current P S t
      both cs (hit text) complete h r = tt
      both cs (more ds) complete (good, still) r =
          λ c m. elim (split c m) [ inl q ↦ still c (complete c q) | inr q ↦ r c q ]

  search_ranges_lem :
      (ranges : List (List Event)) (old : List Candidate)
      → ((c : Candidate) → InRanges ranges c → P c)
      → ((c : Candidate) → In c old → P c)
      → Sound current P old (search_ranges current ranges old)
        × Complete current P (InRanges ranges) (search_ranges current ranges old)
  unfolding search_ranges
  search_ranges_lem [] old fixes good = ((good, λ c m. m), λ c (events, m, f). elim m [ ])
  search_ranges_lem (events ∷ ranges) old fixes good =
      let mine = λ (e : Event) (c : Candidate) (m : In e events) (f : fix_of e ≡ some c).
        fixes c (events, here refl, (e, m, f)) in
      and_then (FixOf events) (InRanges ranges) (InRanges (events ∷ ranges)) old
        (search_events current none events old) (λ found. search_ranges current ranges found)
        (λ c (es, m, f). elim m [
          | here same ↦ inl (subst (λ x. FixOf x c) same f)
          | there later ↦ inr (es, later, f)
        ])
        (search_events-Sound current P none events old mine good)
        (search_events-Complete current P none events old mine good)
        (λ cs all. search_ranges_lem ranges cs (λ c (es, m, f). fixes c (es, there m, f)) all)

  search_affected_lem :
      (name : Text) (affected : List Affected) (old : List Candidate)
      → ((c : Candidate) → InAffected name affected c → P c)
      → ((c : Candidate) → In c old → P c)
      → Sound current P old (search_affected current name affected old)
        × Complete current P (InAffected name affected) (search_affected current name affected old)
  unfolding search_affected
  search_affected_lem name [] old fixes good = ((good, λ c m. m), λ c r. elim r.1 [ ])
  search_affected_lem name (a ∷ affected) old fixes good = elim (Bool-cases (is_package name a)) [
    | inl mine ↦
        rw (search_affected, mine)
          (and_then (InRanges a.ranges) (InAffected name affected) (InAffected name (a ∷ affected))
            old (search_ranges current a.ranges old)
            (λ found. search_affected current name affected found)
            (λ c (x, m, k, f). elim m [
              | here same ↦ inl (subst (λ (y : Affected). InRanges y.ranges c) same f)
              | there later ↦ inr (x, later, k, f)
            ])
            (search_ranges_lem a.ranges old (λ c f. fixes c (a, here refl, mine, f)) good).0
            (search_ranges_lem a.ranges old (λ c f. fixes c (a, here refl, mine, f)) good).1
            (λ cs all.
              search_affected_lem name affected cs (λ c (x, m, k, f). fixes c (x, there m, k, f))
                all))
    | inr other ↦
        let (sound, complete) =
          search_affected_lem name affected old (λ c (x, m, k, f). fixes c (x, there m, k, f))
            good in
        rw (search_affected, other)
          (
            sound,
            either current P (InAffected name affected) (InAffected name affected)
                (InAffected name (a ∷ affected)) (search_affected current name affected old)
                (λ c (x, m, k, f). elim m [
                  | here same ↦ cc (ap (is_package name) same)
                  | there later ↦ inl (x, later, k, f)
                ])
                complete complete,
          )
  ]

lowest-In : (best : Candidate) (cs : List Candidate) → In (lowest best cs) (best ∷ cs)
unfolding lowest
lowest-In best [] = here refl
lowest-In best (c ∷ cs) = elim (Bool-cases (lt_version c.0 best.0)) [
  | inl lower ↦ rw (lowest, lower) (there (lowest-In c cs))
  | inr kept ↦
      rw (lowest, kept)
        (elim (lowest-In best cs) [ here same ↦ here same | there later ↦ there (there later) ])
]

In-above :
    (v : Version) (cs : List Candidate) (c : Candidate)
    → In c (above v cs)
    → In c cs × (gt_version c.0 v ≡ true)
In-above v [] c m = elim m [ ]
In-above v (d ∷ cs) c m = elim (Bool-cases (gt_version d.0 v)) [
  | inl higher ↦ elim (subst (λ b. In c (if b then d ∷ above v cs else above v cs)) higher m) [
    | here same ↦ (here same, ap (λ (x : Candidate). gt_version x.0 v) same ∙ higher)
    | there later ↦ let (l, g) = In-above v cs c later in (there l, g)
  ]
  | inr lower ↦
      let (l, g) =
        In-above v cs c (subst (λ b. In c (if b then d ∷ above v cs else above v cs)) lower m) in
      (there l, g)
]

above-empty :
    (v : Version) (cs : List Candidate) (c : Candidate)
    → lowest_of (above v cs) ≡ none
    → In c cs
    → gt_version c.0 v ≡ false
above-empty v [] c h m = elim m [ ]
above-empty v (d ∷ cs) c h m = elim (Bool-cases (gt_version d.0 v)) [
  | inl higher ↦ ground (arith, higher, h)
  | inr lower ↦ elim m [
    | here same ↦ ap (λ (x : Candidate). gt_version x.0 v) same ∙ lower
    | there later ↦ above-empty v cs c (ground (arith, lower, h)) later
  ]
]

-- What an answer of `patched_version` says of the fixes that the advisory lists for the package: it is
-- one of them, above the installed version; no answer is that none of them is above.
abbrev pub Describes : List Affected → Text → Version → Option Text → Type 0
Describes affected name v (some text) =
    (w : Version) × InAffected name affected (w, text) × (lt_version v w ≡ true)
Describes affected name v none =
    (c : Candidate) → InAffected name affected c → gt_version c.0 v ≡ false

-- The fix that an advisory gives for a package is one of those that it lists, and above the installed
-- version; it gives none only if none of them is above.
pub patched_version-Describes :
    (affected : List Affected) (name installed : Text) (v : Version)
    → try_parse (some installed) ≡ some v
    → Describes affected name v (patched_version affected name installed)
unfolding patched_version
patched_version-Describes affected name installed v parsed =
    let P : Candidate → Type 0 = InAffected name affected in
    let (sound, complete) =
      search_affected_lem (some v) P name affected [] (λ c m. m) (λ c m. elim m [ ]) in
    subst (λ o. Describes affected name v (choose o (search_affected o name affected [])))
      (sym parsed) (go (search_affected (some v) name affected []) sound complete)
  where
    chosen :
        (cs : List Candidate)
        → ((c : Candidate) → In c cs → InAffected name affected c)
        → ((c : Candidate) → InAffected name affected c → In c cs)
        → (o : Option Text) → lowest_of (above v cs) ≡ o
        → Describes affected name v o
    chosen cs good all none h = λ c l. above-empty v cs c h (all c l)
    chosen cs good all (some text) h = pick (above v cs) (λ c m. In-above v cs c m) h
      where
        pick :
            (ds : List Candidate)
            → ((c : Candidate) → In c ds → In c cs × (gt_version c.0 v ≡ true))
            → lowest_of ds ≡ some text
            → Describes affected name v (some text)
        pick [] within h = cc
        pick (d ∷ ds) within h =
            let best = lowest d ds in
            let (l, g) = within best (lowest-In d ds) in
            let e : best.1 ≡ text = ap (λ o. or_default o text) h in
            (
              best.0,
              subst (λ t. InAffected name affected (best.0, t)) e (good best l),
              sym (ge-eq-le best.0 v).1 ∙ g,
            )

    go :
        (s : Search)
        → Sound (some v) (InAffected name affected) [] s
        → Complete (some v) (InAffected name affected) (InAffected name affected) s
        → Describes affected name v (choose (some v) s)
    go (hit text) sound complete =
        let e : sound.installed ≡ v = ap (λ o. or_default o v) (sym sound.known) in
        (sound.version, sound.fix, subst (λ x. lt_version x sound.version ≡ true) e sound.below)
    go (more cs) (good, keep) complete = chosen cs good complete (lowest_of (above v cs)) refl
