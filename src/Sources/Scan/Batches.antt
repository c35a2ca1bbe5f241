-- ===== src/Sources/Scan/Batches.antt =====
-- The batches of a query: every dependency is in one, and is counted once.
use dependabot_harness.Prelude.{
  ℕ, zero, suc, ◌+◌, ◌-◌, ◌≤◌, ◌<◌, ◌≡◌, refl, ◌⊎◌, inl, inr, List, [], ◌∷◌, length, take, drop,
  length-take, In, here, there, arith,
}
use dependabot_harness.Sources.Scan.{
  DiscoveredDependency, ScanStats, Answer, raised, status, results, Match, batches, batch_size,
  settle, query_all, query,
}

module _ {ℓ} {A : Type ℓ} where
  length-drop : (n : ℕ) (xs : List A) → length (drop n xs) ≡ length xs - n
  length-drop zero xs = omega arith
  length-drop (suc n) [] = omega arith
  length-drop (suc n) (x ∷ xs) = omega (arith, length-drop n xs)

  In-take-drop : (n : ℕ) (xs : List A) (x : A) → In x xs → In x (take n xs) ⊎ In x (drop n xs)
  In-take-drop zero xs x m = inr m
  In-take-drop (suc n) [] x m = elim m [ ]
  In-take-drop (suc n) (y ∷ ys) x (here same) = inl (here same)
  In-take-drop (suc n) (y ∷ ys) x (there later) = elim (In-take-drop n ys x later) [
    | inl l ↦ inl (there l)
    | inr r ↦ inr r
  ]

  pub sum_lengths : List (List A) → ℕ
  sum_lengths [] = 0
  sum_lengths (xs ∷ xss) = length xs + sum_lengths xss

  -- With a size of at least one, and fuel for each element.
  pub In-batches :
      (fuel size : ℕ) (xs : List A) (x : A)
      → length xs ≤ fuel
      → 0 < size
      → In x xs
      → (chunk : List A) × In chunk (batches fuel size xs) × In x chunk
  unfolding batches
  In-batches fuel size [] x enough some_size m = elim m [ ]
  In-batches zero size (y ∷ ys) x enough some_size m = absurd (omega (arith, enough))
  In-batches (suc fuel) size (y ∷ ys) x enough some_size m = elim (In-take-drop size (y ∷ ys) x m) [
    | inl first ↦ (take size (y ∷ ys), here refl, first)
    | inr later ↦
        let (chunk, listed, inside) =
          In-batches fuel size (drop size (y ∷ ys)) x
            (omega (arith, length-drop size (y ∷ ys), enough, some_size)) some_size later in
        (chunk, there listed, inside)
  ]

  pub sum_lengths-batches :
      (fuel size : ℕ) (xs : List A)
      → length xs ≤ fuel
      → 0 < size
      → sum_lengths (batches fuel size xs) ≡ length xs
  unfolding batches sum_lengths
  sum_lengths-batches zero size [] enough some_size = refl
  sum_lengths-batches (suc fuel) size [] enough some_size = refl
  sum_lengths-batches zero size (y ∷ ys) enough some_size = absurd (omega (arith, enough))
  sum_lengths-batches (suc fuel) size (y ∷ ys) enough some_size =
      let rest =
        sum_lengths-batches fuel size (drop size (y ∷ ys))
          (omega (arith, length-drop size (y ∷ ys), enough, some_size)) some_size in
      omega (arith, rest, length-take size (y ∷ ys), length-drop size (y ∷ ys))

settle_counts :
    (a : Answer) (chunk : List DiscoveredDependency) (out : List Match) (s : ScanStats)
    → let (_, s') = settle a chunk (out, s) in
      s'.queried + s'.unqueried ≡ s.queried + s.unqueried + length chunk
unfolding settle
settle_counts (raised e) chunk out s = omega arith
settle_counts (status code) chunk out s = omega arith
settle_counts (results answers) chunk out s = ground arith

query_all_counts :
    (post : List DiscoveredDependency → Answer) (chunks : List (List DiscoveredDependency))
    (d : List Match × ScanStats)
    → let (_, s') = query_all post chunks d in
      s'.queried + s'.unqueried ≡ d.1.queried + d.1.unqueried + sum_lengths chunks
unfolding query_all sum_lengths
query_all_counts post [] d = omega arith
query_all_counts post (chunk ∷ chunks) (out, s) = omega (
  arith,
  settle_counts (post chunk) chunk out s,
  query_all_counts post chunks (settle (post chunk) chunk (out, s)),
)

-- Every dependency that is handed to a query is counted once, as queried or as not.
pub query_counts :
    (post : List DiscoveredDependency → Answer) (found : List DiscoveredDependency) (s : ScanStats)
    → let (_, s') = query post found s in
      s'.queried + s'.unqueried ≡ s.queried + s.unqueried + length found
unfolding query
query_counts post found s = omega (
  arith,
  query_all_counts post (batches (length found) batch_size found) ([], s),
  sum_lengths-batches (length found) batch_size found (omega arith) (omega arith),
)
