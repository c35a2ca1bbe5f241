-- ===== src/Sources/Patched/Events.antt =====
-- What the loop over the events of a range keeps.
use dependabot_harness.Prelude.{
  ◌≡◌, refl, sym, ap, subst, ◌∙◌, ◌⊎◌, inl, inr, true, Option, none, some, List, [], ◌∷◌, ◌++◌,
  Text, In, here, there, arith, Bool-cases, Option-cases, or_default,
}
use dependabot_harness.Version.{Version, lt_version, le_version}
use dependabot_harness.Sources.Patched.{
  Event, Candidate, Search, hit, more, last_introduced, in_branch, fix_of, search_events,
}

-- What a search keeps: a hit is a fix above the current version, on the branch that holds it; else the
-- candidates are fixes, and none that was met is lost.
pub record IsHit (current : Option Version) (P : Candidate → Type 0) (text : Text) : Type 0 where
  pub version : Version
  pub fix : P (version, text)
  pub installed : Version
  pub known : current ≡ some installed
  pub below : lt_version installed version ≡ true
  pub from : Version
  pub branch : le_version from installed ≡ true

module _ (current : Option Version) (P : Candidate → Type 0) where
  abbrev pub Sound : List Candidate → Search → Type 0
  Sound old (hit text) = IsHit current P text
  Sound old (more cs) = ((c : Candidate) → In c cs → P c) × ((c : Candidate) → In c old → In c cs)

  -- Each fix of these is among the candidates of a search that goes on.
  abbrev pub Complete : (Candidate → Type 0) → Search → Type 0
  Complete Q (hit text) = Unit
  Complete Q (more cs) = (c : Candidate) → Q c → In c cs

  branch_IsHit :
      (introduced : Option Version) (version : Version) (text : Text)
      → P (version, text)
      → in_branch current introduced version ≡ true
      → IsHit current P text
  branch_IsHit introduced version text p h = go current introduced refl h
    where
      go :
          (c i : Option Version) → current ≡ c → in_branch c i version ≡ true → IsHit current P text
      go none i e h = cc
      go (some v) none e h = cc
      go (some v) (some i) e h = record {
        version = version;
        fix = p;
        installed = v;
        known = e;
        below = ground (arith, h);
        from = i;
        branch = ground (arith, h);
      }

abbrev pub FixOf : List Event → Candidate → Type 0
FixOf events c = (e : Event) × In e events × (fix_of e ≡ some c)

In-append_left : {A : Type 0} (x : A) (xs ys : List A) → In x xs → In x (xs ++ ys)
In-append_left x [] ys m = elim m [ ]
In-append_left x (z ∷ xs) ys (here same) = here same
In-append_left x (z ∷ xs) ys (there later) = there (In-append_left x xs ys later)

In-append_last : {A : Type 0} (x : A) (xs : List A) → In x (xs ++ x ∷ [])
In-append_last x [] = here refl
In-append_last x (z ∷ xs) = there (In-append_last x xs)

In-snoc-cases : {A : Type 0} (x y : A) (xs : List A) → In x (xs ++ y ∷ []) → In x xs ⊎ (x ≡ y)
In-snoc-cases x y [] (here same) = inr same
In-snoc-cases x y [] (there later) = elim later [ ]
In-snoc-cases x y (z ∷ xs) (here same) = inl (here same)
In-snoc-cases x y (z ∷ xs) (there later) = elim (In-snoc-cases x y xs later) [
  | inl m ↦ inl (there m)
  | inr same ↦ inr same
]

module _ (current : Option Version) (P : Candidate → Type 0) where
  pub search_events-Sound :
      (introduced : Option Version) (events : List Event) (old : List Candidate)
      → ((e : Event) (c : Candidate) → In e events → fix_of e ≡ some c → P c)
      → ((c : Candidate) → In c old → P c)
      → Sound current P old (search_events current introduced events old)
  unfolding search_events
  search_events-Sound introduced [] old fixes good = (good, λ c m. m)
  search_events-Sound introduced (e ∷ events) old fixes good =
      let from = last_introduced e introduced in
      elim (Option-cases (fix_of e)) [
        | inl unfixed ↦
            rw (search_events, unfixed)
              (search_events-Sound from events old (λ x c m. fixes x c (there m)) good)
        | inr ((version, text), fixed) ↦ elim (Bool-cases (in_branch current from version)) [
          | inl inside ↦
              rw (search_events, fixed, inside)
                (branch_IsHit current P from version text
                  (fixes e (version, text) (here refl) fixed) inside)
          | inr outside ↦
              rw (search_events, fixed, outside)
                (widen old (version, text)
                  (search_events current from events (old ++ (version, text) ∷ []))
                  (search_events-Sound from events (old ++ (version, text) ∷ [])
                    (λ x c m. fixes x c (there m))
                    (λ c m. elim (In-snoc-cases c (version, text) old m) [
                      | inl before ↦ good c before
                      | inr same ↦ subst P (sym same) (fixes e (version, text) (here refl) fixed)
                    ])))
        ]
      ]
    where
      widen :
          (old : List Candidate) (c : Candidate) (s : Search)
          → Sound current P (old ++ c ∷ []) s
          → Sound current P old s
      widen old c (hit text) h = h
      widen old c (more cs) (good, keep) = (good, λ d m. keep d (In-append_left d old (c ∷ []) m))

  -- The goal where the search is the one for the rest with a candidate more.
  kept :
      (old : List Candidate) (c : Candidate) (s : Search)
      → Sound current P (old ++ c ∷ []) s
      → Complete current P (λ d. d ≡ c) s
  kept old c (hit text) h = tt
  kept old c (more cs) (good, keep) =
      λ d same. keep d (subst (λ x. In x (old ++ c ∷ [])) (sym same) (In-append_last c old))

  pub either :
      (Q R S : Candidate → Type 0) (s : Search)
      → ((c : Candidate) → S c → Q c ⊎ R c)
      → Complete current P Q s
      → Complete current P R s
      → Complete current P S s
  either Q R S (hit text) split q r = tt
  either Q R S (more cs) split q r = λ c m. elim (split c m) [ inl a ↦ q c a | inr b ↦ r c b ]

  pub search_events-Complete :
      (introduced : Option Version) (events : List Event) (old : List Candidate)
      → ((e : Event) (c : Candidate) → In e events → fix_of e ≡ some c → P c)
      → ((c : Candidate) → In c old → P c)
      → Complete current P (FixOf events) (search_events current introduced events old)
  unfolding search_events
  search_events-Complete introduced [] old fixes good = λ c (e, m, f). elim m [ ]
  search_events-Complete introduced (e ∷ events) old fixes good =
      let from = last_introduced e introduced in
      let rest = λ (x : Event) (c : Candidate) (m : In x events). fixes x c (there m) in
      elim (Option-cases (fix_of e)) [
        | inl unfixed ↦
            rw (search_events, unfixed)
              (either (FixOf events) (FixOf events) (FixOf (e ∷ events))
                (search_events current from events old)
                (λ c (x, m, f). elim m [
                  | here same ↦ cc (ap fix_of same)
                  | there later ↦ inl (x, later, f)
                ])
                (search_events-Complete from events old rest good)
                (search_events-Complete from events old rest good))
        | inr ((version, text), fixed) ↦ elim (Bool-cases (in_branch current from version)) [
          | inl inside ↦ rw (search_events, fixed, inside) tt
          | inr outside ↦
              let new : List Candidate = old ++ (version, text) ∷ [] in
              let all = λ (c : Candidate) (m : In c new).
                added old (version, text) good (fixes e (version, text) (here refl) fixed) c m in
              rw (search_events, fixed, outside)
                (either (FixOf events) (λ d. d ≡ (version, text)) (FixOf (e ∷ events))
                  (search_events current from events new)
                  (λ c (x, m, f). elim m [
                    | here same ↦ inr (ap (λ o. or_default o c) (sym f ∙ ap fix_of same ∙ fixed))
                    | there later ↦ inl (x, later, f)
                  ])
                  (search_events-Complete from events new rest all)
                  (kept old (version, text) (search_events current from events new)
                    (search_events-Sound from events new rest all)))
        ]
      ]
    where
      added :
          (old : List Candidate) (one : Candidate)
          → ((c : Candidate) → In c old → P c)
          → P one
          → (c : Candidate) → In c (old ++ one ∷ [])
          → P c
      added old one good p c m = elim (In-snoc-cases c one old m) [
        | inl before ↦ good c before
        | inr same ↦ subst P (sym same) p
      ]
