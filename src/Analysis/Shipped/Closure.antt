-- ===== src/Analysis/Shipped/Closure.antt =====
-- The closure ends, and holds exactly what the imports reach.
use dependabot_harness.Prelude.{
  ℕ, zero, suc, ◌+◌, ◌≤◌, ◌≡◌, refl, sym, ap, ◌∙◌, subst, ◌↔◌, ◌⊎◌, inl, inr, Bool, true, false,
  not, ◌||◌, String, some, List, [], ◌∷◌, ◌++◌, length, filter, any-append, contains, ◌==◌,
  string_eq, eq_iff, beq_refl, arith, or_default, Bool-cases,
}
use dependabot_harness.Analysis.Shipped.{
  Graph, children, in_graph, new_children, walk, unseen_edges, closure,
}

length-append : {A : Type 0} (xs ys : List A) → length (xs ++ ys) ≡ length xs + length ys
length-append [] ys = omega arith
length-append (x ∷ xs) ys = omega (arith, length-append xs ys)

length-filter_le : {A : Type 0} (p : A → Bool) (xs : List A) → length (filter p xs) ≤ length xs
length-filter_le p [] = omega arith
length-filter_le p (x ∷ xs) = ground (arith, length-filter_le p xs)

unseen_mono :
    (graph : Graph) (node : String) (seen : List String)
    → unseen_edges graph (node ∷ seen) ≤ unseen_edges graph seen
unfolding unseen_edges
unseen_mono [] node seen = omega arith
unseen_mono ((k, deps) ∷ graph) node seen = ground (arith, unseen_mono graph node seen)

-- Seeing a node takes away at least its edges.
unseen_drop :
    (graph : Graph) (node : String) (seen : List String)
    → contains seen node ≡ false
    → unseen_edges graph (node ∷ seen) + length (children graph node) ≤ unseen_edges graph seen
unfolding unseen_edges children
unseen_drop [] node seen fresh = omega arith
unseen_drop ((k, deps) ∷ graph) node seen fresh = elim (Bool-cases (k == node)) [
  | inl same ↦
      let e = (eq_iff k node).0 same in
      let known : contains seen k ≡ false = subst (λ n. contains seen n ≡ false) (sym e) fresh in
      ground (arith, unseen_mono graph node seen, known, same)
  | inr other ↦ ground (arith, unseen_drop graph node seen fresh, other)
]

walk_ends :
    (graph : Graph) (fuel : ℕ) (seen stack : List String)
    → length stack + unseen_edges graph seen ≤ fuel
    → (found : List String) × (walk graph fuel seen stack ≡ some found)
unfolding walk
walk_ends graph zero seen [] enough = (seen, refl)
walk_ends graph (suc fuel) seen [] enough = (seen, refl)
walk_ends graph zero seen (node ∷ stack) enough = absurd (omega (arith, enough))
walk_ends graph (suc fuel) seen (node ∷ stack) enough = elim (Bool-cases (contains seen node)) [
  | inl old ↦
      let (found, ended) = walk_ends graph fuel seen stack (omega (arith, enough)) in
      (found, rw (walk, old) ended)
  | inr fresh ↦
      let next = new_children graph node (node ∷ seen) in
      let (found, ended) = walk_ends graph fuel (node ∷ seen) (next ++ stack) (
        omega (
          arith,
          enough,
          length-append next stack,
          unseen_drop graph node seen fresh,
          length-filter_le (λ child. not (contains (node ∷ seen) child)) (children graph node),
        )) in
      (found, rw (walk, fresh) ended)
]

-- What the imports reach: those that are in the graph, and the dependencies of what is reached.
pub data Reaches (graph : Graph) (seeds : List String) : String → Type 0 where
  seed : {x : String} → contains seeds x ≡ true → in_graph graph x ≡ true → Reaches graph seeds x
  step :
      {x y : String}
      → Reaches graph seeds x
      → contains (children graph x) y ≡ true
      → Reaches graph seeds y

contains-append :
    (xs ys : List String) (a : String) → contains (xs ++ ys) a ≡ (contains xs a || contains ys a)
contains-append xs ys a = any-append (λ x. a == x) xs ys

contains-filter :
    (p : String → Bool) (xs : List String) (a : String)
    → (contains (filter p xs) a ≡ true) ↔ ((contains xs a ≡ true) × (p a ≡ true))
contains-filter p [] a = (λ h. ground (arith, h), λ (h, k). ground (arith, h))
contains-filter p (x ∷ xs) a = elim (Bool-cases (a == x)) [
  | inl same ↦
      let e = (eq_iff a x).0 same in
      (
        λ h. ground (arith, h, e, same, contains-filter p xs a),
        λ (h, k). ground (arith, k, e, same),
      )
  | inr other ↦ (
    λ h. ground (arith, h, other, contains-filter p xs a),
    λ (h, k). ground (arith, h, k, other, contains-filter p xs a),
  )
]

-- Dependencies of what is seen are seen or wait on the stack.
abbrev IsPending : Graph → List String → List String → Type 0
IsPending graph seen stack =
    (x y : String)
    → contains seen x ≡ true
    → contains (children graph x) y ≡ true
    → (contains seen y ≡ true) ⊎ (contains stack y ≡ true)

-- What the walk's answer holds.
record IsClosed (graph : Graph) (seen stack found : List String) : Type 0 where
  keeps :
      (x : String) → (contains seen x ≡ true) ⊎ (contains stack x ≡ true) → contains found x ≡ true
  follows :
      (x y : String)
      → contains found x ≡ true
      → contains (children graph x) y ≡ true
      → contains found y ≡ true

or_right : (b c : Bool) → c ≡ true → (b || c) ≡ true
or_right b c h = ground (arith, h)

right_of : (b c : Bool) → b ≡ false → (b || c) ≡ true → c ≡ true
right_of b c left both = ground (arith, left, both)

skip-IsPending :
    (graph : Graph) (seen : List String) (node : String) (stack : List String)
    → contains seen node ≡ true
    → IsPending graph seen (node ∷ stack)
    → IsPending graph seen stack
skip-IsPending graph seen node stack old pending x y s c = elim (pending x y s c) [
  | inl here_y ↦ inl here_y
  | inr waits ↦ elim (Bool-cases (y == node)) [
    | inl same ↦ inl (subst (λ n. contains seen n ≡ true) (sym ((eq_iff y node).0 same)) old)
    | inr other ↦ inr (ground (arith, waits, other))
  ]
]

visit-IsPending :
    (graph : Graph) (seen : List String) (node : String) (stack : List String)
    → IsPending graph seen (node ∷ stack)
    → IsPending graph (node ∷ seen) (new_children graph node (node ∷ seen) ++ stack)
visit-IsPending graph seen node stack pending x y s c =
    elim (Bool-cases (contains (node ∷ seen) y)) [
      | inl old ↦ inl old
      | inr fresh ↦ elim (Bool-cases (x == node)) [
        | inl same ↦
            let e = (eq_iff x node).0 same in
            let child : contains (children graph node) y ≡ true =
              subst (λ n. contains (children graph n) y ≡ true) e c in
            let new =
              (contains-filter (λ d. not (contains (node ∷ seen) d)) (children graph node) y).1
                (child, ap not fresh) in
            inr (
              contains-append (new_children graph node (node ∷ seen)) stack y
              ∙ ap (λ b. b || contains stack y) new)
        | inr other ↦ elim (pending x y (ground (arith, s, other)) c) [
          | inl seen_y ↦ inl (ground (arith, seen_y))
          | inr waits ↦ inr (
              contains-append (new_children graph node (node ∷ seen)) stack y
              ∙ or_right (contains (new_children graph node (node ∷ seen)) y) (contains stack y)
                  (ground (arith, waits, fresh)))
        ]
      ]
    ]

nothing_waits :
    (x : String) (seen : List String)
    → (contains seen x ≡ true) ⊎ (contains [] x ≡ true)
    → contains seen x ≡ true
nothing_waits x seen (inl old) = old
nothing_waits x seen (inr waits) = cc

-- What waited before a visit waits after it, or is seen.
visit-keeps :
    (graph : Graph) (seen : List String) (node : String) (stack : List String) (x : String)
    → (contains seen x ≡ true) ⊎ (contains (node ∷ stack) x ≡ true)
    → (contains (node ∷ seen) x ≡ true)
      ⊎ (contains (new_children graph node (node ∷ seen) ++ stack) x ≡ true)
visit-keeps graph seen node stack x (inl old) = inl (or_right _ _ old)
visit-keeps graph seen node stack x (inr waits) = elim (Bool-cases (x == node)) [
  | inl same ↦ inl (ground (arith, same))
  | inr other ↦ inr (
      contains-append (new_children graph node (node ∷ seen)) stack x
      ∙ or_right (contains (new_children graph node (node ∷ seen)) x) (contains stack x)
          (ground (arith, waits, other)))
]

skip-keeps :
    (seen : List String) (node : String) (stack : List String) (x : String)
    → contains seen node ≡ true
    → (contains seen x ≡ true) ⊎ (contains (node ∷ stack) x ≡ true)
    → (contains seen x ≡ true) ⊎ (contains stack x ≡ true)
skip-keeps seen node stack x old (inl known) = inl known
skip-keeps seen node stack x old (inr waits) = elim (Bool-cases (x == node)) [
  | inl same ↦ inl (subst (λ n. contains seen n ≡ true) (sym ((eq_iff x node).0 same)) old)
  | inr other ↦ inr (ground (arith, waits, other))
]

module _ (graph : Graph) where
  -- The branches of the walk, backwards.
  walk_skip :
      (fuel : ℕ) (seen : List String) (node : String) (stack found : List String)
      → contains seen node ≡ true
      → walk graph (suc fuel) seen (node ∷ stack) ≡ some found
      → walk graph fuel seen stack ≡ some found
  unfolding walk
  walk_skip fuel seen node stack found old h = rw (walk, old) at h

  walk_visit :
      (fuel : ℕ) (seen : List String) (node : String) (stack found : List String)
      → contains seen node ≡ false
      → walk graph (suc fuel) seen (node ∷ stack) ≡ some found
      → walk graph fuel (node ∷ seen) (new_children graph node (node ∷ seen) ++ stack) ≡ some found
  unfolding walk
  walk_visit fuel seen node stack found fresh h = rw (walk, fresh) at h

  finished-IsClosed :
      (seen found : List String)
      → IsPending graph seen []
      → seen ≡ found
      → IsClosed graph seen [] found
  finished-IsClosed seen found pending same = record {
    keeps = λ x h. subst (λ l. contains l x ≡ true) same (nothing_waits x seen h);
    follows = λ x y h c.
        subst (λ l. contains l y ≡ true) same
          (nothing_waits y seen (pending x y (subst (λ l. contains l x ≡ true) (sym same) h) c));
  }

  walk-IsClosed :
      (fuel : ℕ) (seen stack found : List String)
      → IsPending graph seen stack
      → walk graph fuel seen stack ≡ some found
      → IsClosed graph seen stack found
  unfolding walk
  walk-IsClosed zero seen [] found pending h =
      finished-IsClosed seen found pending (ap (λ o. or_default o []) h)
  walk-IsClosed (suc fuel) seen [] found pending h =
      finished-IsClosed seen found pending (ap (λ o. or_default o []) h)
  walk-IsClosed zero seen (node ∷ stack) found pending h = cc
  walk-IsClosed (suc fuel) seen (node ∷ stack) found pending h =
      elim (Bool-cases (contains seen node)) [
        | inl old ↦
            let rest =
              walk-IsClosed fuel seen stack found (skip-IsPending graph seen node stack old pending)
                (walk_skip fuel seen node stack found old h) in
            record {
              keeps = λ x k. rest.keeps x (skip-keeps seen node stack x old k);
              follows = rest.follows;
            }
        | inr fresh ↦
            let rest =
              walk-IsClosed fuel (node ∷ seen) _ found
                (visit-IsPending graph seen node stack pending)
                (walk_visit fuel seen node stack found fresh h) in
            record {
              keeps = λ x k. rest.keeps x (visit-keeps graph seen node stack x k);
              follows = rest.follows;
            }
      ]

module _ (graph : Graph) (P : String → Type 0)
    (holds_on : (x y : String) → P x → contains (children graph x) y ≡ true → P y) where
  abbrev All : List String → Type 0
  All xs = (x : String) → contains xs x ≡ true → P x

  All-visit :
      (seen : List String) (node : String) (stack : List String)
      → All (node ∷ stack)
      → All (new_children graph node (node ∷ seen) ++ stack)
  All-visit seen node stack waiting x m =
      elim (Bool-cases (contains (new_children graph node (node ∷ seen)) x)) [
        | inl child ↦
            holds_on node x (waiting node (ground (arith, beq_refl node)))
              ((contains-filter (λ d. not (contains (node ∷ seen) d)) (children graph node) x).0
                child).0
        | inr other ↦
            let left : contains stack x ≡ true =
              right_of _ _ other
                (sym (contains-append (new_children graph node (node ∷ seen)) stack x) ∙ m) in
            waiting x (or_right (x == node) (contains stack x) left)
      ]

  All-seen :
      (seen : List String) (node : String) (stack : List String)
      → All seen
      → All (node ∷ stack)
      → All (node ∷ seen)
  All-seen seen node stack known waiting x m = elim (Bool-cases (x == node)) [
    | inl same ↦ waiting x (ground (arith, same))
    | inr other ↦ known x (ground (arith, other, m))
  ]

  walk-All :
      (fuel : ℕ) (seen stack found : List String)
      → All seen
      → All stack
      → walk graph fuel seen stack ≡ some found
      → All found
  unfolding walk
  walk-All zero seen [] found known waiting h = subst All (ap (λ o. or_default o []) h) known
  walk-All (suc fuel) seen [] found known waiting h = subst All (ap (λ o. or_default o []) h) known
  walk-All zero seen (node ∷ stack) found known waiting h = cc
  walk-All (suc fuel) seen (node ∷ stack) found known waiting h =
      elim (Bool-cases (contains seen node)) [
        | inl old ↦
            walk-All fuel seen stack found known (λ x m. waiting x (or_right _ _ m))
              (walk_skip graph fuel seen node stack found old h)
        | inr fresh ↦
            walk-All fuel (node ∷ seen) _ found (All-seen seen node stack known waiting)
              (All-visit seen node stack waiting)
              (walk_visit graph fuel seen node stack found fresh h)
      ]

reached_found :
    (graph : Graph) (seeds found : List String)
    → IsClosed graph [] (filter (in_graph graph) seeds) found
    → (x : String) → Reaches graph seeds x
    → contains found x ≡ true
reached_found graph seeds found closed x (seed s g) =
    closed.keeps x (inr ((contains-filter (in_graph graph) seeds x).1 (s, g)))
reached_found graph seeds found closed y (step {x = x} r c) =
    closed.follows x y (reached_found graph seeds found closed x r) c

-- The closure always ends, within as many steps as there are seeds and edges, and it holds exactly
-- the packages that the imports of the graph reach along its dependencies.
pub closure-Reaches :
    (graph : Graph) (seeds : List String)
    → (found : List String) × (closure graph seeds ≡ some found)
      × ((x : String) → (contains found x ≡ true) ↔ Reaches graph seeds x)
unfolding closure
closure-Reaches graph seeds =
    let stack = filter (in_graph graph) seeds in
    let (found, ended) =
      walk_ends graph (length stack + unseen_edges graph []) [] stack (omega arith) in
    let closed = walk-IsClosed graph _ [] stack found (λ x y s c. cc) ended in
    (
      found,
      ended,
      λ x. (
        λ m.
            walk-All graph (Reaches graph seeds) (λ a b r c. step r c) _ [] stack found (λ y k. cc)
              (λ y k. let (s, g) = (contains-filter (in_graph graph) seeds y).0 k in seed s g) ended
              x m,
        reached_found graph seeds found closed x,
      ),
    )
