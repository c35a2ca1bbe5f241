-- ===== src/Agents/Files/Matches.antt =====
-- The bounds of `grep`, and what each of its matches is.
use dependabot_harness.Prelude.{
  ℕ, suc, ◌+◌, ◌-◌, ◌≤◌, ◌<◌, ◌≡◌, refl, sym, subst, ◌⊎◌, inl, inr, Bool, true, false, ◌&&◌, some,
  List, [], ◌∷◌, ◌++◌, Text, length, length-append, get_elem?, In, here, there, ltb, leb, arith,
  Bool-cases, ok, Result-cases,
}
use dependabot_harness.Agents.Files.{
  WalkedFile, Match, GrepState, max_grep_matches, max_grep_files, max_grep_bytes, max_file_bytes,
  shown, grep_lines, grep_file, grep_files, at_cap, no_files,
}

module _ (pattern matches_glob : Text → Bool) where
  -- The match is a line of the file that the pattern finds, and the file is one that was let through.
  pub record IsMatchIn (file : WalkedFile) (m : Match) : Type 0 where
    pub of_file : m.0 ≡ file.path
    pub wanted : matches_glob file.path ≡ true
    pub inside : file.resolves ≡ true
    pub lines : List Text
    pub read : file.lines ≡ ok lines
    pub line : Text
    pub at : get_elem? lines (m.1.0 - 1) ≡ some line
    pub finds : pattern line ≡ true
    pub text : m.1.1 ≡ shown line

  abbrev IsMatch : List WalkedFile → Match → Type 0
  IsMatch files m = (file : WalkedFile) × In file files × IsMatchIn file m

  grep_lines-length :
      (path : Text) (n : ℕ) (lines : List Text) (found : List Match)
      → length found < max_grep_matches
      → length (grep_lines pattern path n lines found) ≤ max_grep_matches
  unfolding grep_lines
  grep_lines-length path n [] found h = omega (arith, h)
  grep_lines-length path n (line ∷ lines) found h =
      let more = found ++ (path, (n, shown line)) ∷ [] in
      let long = length-append found ((path, (n, shown line)) ∷ []) in
      elim (Bool-cases (pattern line)) [
        | inr skips ↦ rw (grep_lines, skips) (grep_lines-length path (n + 1) lines found h)
        | inl finds ↦ elim (Bool-cases (leb max_grep_matches (length more))) [
          | inl full ↦ rw (grep_lines, finds, full) (omega (arith, long, h))
          | inr below ↦
              rw (grep_lines, finds, below)
                (grep_lines-length path (n + 1) lines more (ground (arith, below)))
        ]
      ]

  In-snoc-cases : {A : Type 0} (x y : A) (xs : List A) → In x (xs ++ y ∷ []) → In x xs ⊎ (x ≡ y)
  In-snoc-cases x y [] (here same) = inr same
  In-snoc-cases x y [] (there later) = elim later [ ]
  In-snoc-cases x y (z ∷ xs) (here same) = inl (here same)
  In-snoc-cases x y (z ∷ xs) (there later) = elim (In-snoc-cases x y xs later) [
    | inl m ↦ inl (there m)
    | inr same ↦ inr same
  ]

  -- Every match is an old one, or one for which `P` holds.
  grep_lines-All :
      (P : Match → Type 0) (path : Text) (n : ℕ) (lines : List Text) (found : List Match)
      → ((k : ℕ) (line : Text)
          → get_elem? lines k ≡ some line
          → pattern line ≡ true
          → P (path, (n + k, shown line)))
      → ((m : Match) → In m found → P m)
      → (m : Match) → In m (grep_lines pattern path n lines found)
      → P m
  unfolding grep_lines
  grep_lines-All P path n [] found new old m l = old m l
  grep_lines-All P path n (line ∷ lines) found new old m l =
      let more = found ++ (path, (n, shown line)) ∷ [] in
      let new' : (k : ℕ) (line' : Text)
          → get_elem? lines k ≡ some line'
          → pattern line' ≡ true
          → P (path, (n + 1 + k, shown line')) =
        λ k line' at finds.
          let e : n + suc k ≡ n + 1 + k = omega arith in
          subst (λ (i : ℕ). P (path, (i, shown line'))) e (new (suc k) line' at finds) in
      elim (Bool-cases (pattern line)) [
        | inr skips ↦
            grep_lines-All P path (n + 1) lines found new' old m (rw (grep_lines, skips) at l)
        | inl finds ↦
            let e : n + 0 ≡ n = omega arith in
            let mine : P (path, (n, shown line)) =
              subst (λ (i : ℕ). P (path, (i, shown line))) e (new 0 line refl finds) in
            let old' : (x : Match) → In x more → P x = λ x i.
              elim (In-snoc-cases x (path, (n, shown line)) found i) [
                | inl before ↦ old x before
                | inr same ↦ subst P (sym same) mine
              ] in
            elim (Bool-cases (leb max_grep_matches (length more))) [
              | inl full ↦ old' m (rw (grep_lines, finds, full) at l)
              | inr below ↦
                  grep_lines-All P path (n + 1) lines more new' old' m
                    (rw (grep_lines, finds, below) at l)
            ]
      ]

  -- Bounds that hold of every state, and those of a state at no cap.
  abbrev IsBounded : GrepState → Type 0
  IsBounded s =
      (length s.matches ≤ max_grep_matches)
      × (s.scanned ≤ max_grep_files)
      × (s.loaded < max_grep_bytes + max_file_bytes)

  abbrev IsBelow : GrepState → Type 0
  IsBelow s =
      (length s.matches < max_grep_matches)
      × (s.scanned < max_grep_files)
      × (s.loaded < max_grep_bytes)

  -- A file is let through and read, or it changes at most the count of files.
  grep_file-cases :
      (file : WalkedFile) (s : GrepState)
      → ((grep_file pattern matches_glob file s).matches ≡ s.matches)
          × ((grep_file pattern matches_glob file s).loaded ≡ s.loaded)
          × ((grep_file pattern matches_glob file s).scanned ≤ s.scanned + 1)
        ⊎ ((lines : List Text) × (size : ℕ) × (file.lines ≡ ok lines)
            × (size ≤ max_file_bytes)
            × (matches_glob file.path ≡ true)
            × (file.resolves ≡ true)
            × ((grep_file pattern matches_glob file s).matches
                ≡ grep_lines pattern file.path 1 lines s.matches)
            × ((grep_file pattern matches_glob file s).loaded ≡ s.loaded + size)
            × ((grep_file pattern matches_glob file s).scanned ≡ s.scanned + 1))
  unfolding grep_file
  grep_file-cases file s = elim (Bool-cases (matches_glob file.path && file.resolves)) [
    | inr out ↦ inl (ground (arith, out), ground (arith, out), ground (arith, out))
    | inl let_in ↦ elim (Result-cases file.size) [
      | inr (e, threw) ↦ inl (
        ground (arith, let_in, threw),
        ground (arith, let_in, threw),
        ground (arith, let_in, threw),
      )
      | inl (size, sized) ↦ elim (Bool-cases (ltb max_file_bytes size)) [
        | inl large ↦ inl (
          ground (arith, let_in, sized, large),
          ground (arith, let_in, sized, large),
          ground (arith, let_in, sized, large),
        )
        | inr small ↦ elim (Result-cases file.lines) [
          | inr (e, threw) ↦ inl (
            ground (arith, let_in, sized, small, threw),
            ground (arith, let_in, sized, small, threw),
            ground (arith, let_in, sized, small, threw),
          )
          | inl (lines, read) ↦ inr (
            lines,
            size,
            read,
            ground (arith, small),
            ground (arith, let_in),
            ground (arith, let_in),
            ground (arith, let_in, sized, small, read),
            ground (arith, let_in, sized, small, read),
            ground (arith, let_in, sized, small, read),
          )
        ]
      ]
    ]
  ]

  grep_file-IsBounded :
      (file : WalkedFile) (s : GrepState)
      → IsBelow s
      → IsBounded (grep_file pattern matches_glob file s)
  grep_file-IsBounded file s (few, files, bytes) = elim (grep_file-cases file s) [
    | inl (m, l, n) ↦ (
      subst (λ (x : List Match). length x ≤ max_grep_matches) (sym m) (omega (arith, few)),
      omega (arith, n, files),
      omega (arith, l, bytes),
    )
    | inr (lines, size, read, small, wanted, inside, m, l, n) ↦ (
      subst (λ (x : List Match). length x ≤ max_grep_matches) (sym m)
          (grep_lines-length file.path 1 lines s.matches few),
      omega (arith, n, files),
      omega (arith, l, bytes, small),
    )
  ]

  grep_file-All :
      (files : List WalkedFile) (file : WalkedFile) (s : GrepState)
      → In file files
      → ((m : Match) → In m s.matches → IsMatch files m)
      → (m : Match) → In m (grep_file pattern matches_glob file s).matches
      → IsMatch files m
  grep_file-All files file s listed old m l = elim (grep_file-cases file s) [
    | inl (same, loaded, n) ↦ old m (subst (In m) same l)
    | inr (lines, size, read, small, wanted, inside, same, loaded, n) ↦
        grep_lines-All (IsMatch files) file.path 1 lines s.matches
          (λ k line at finds. (
            file,
            listed,
            record {
              of_file = refl;
              wanted = wanted;
              inside = inside;
              lines = lines;
              read = read;
              line = line;
              at =
                  (let e : 1 + k - 1 ≡ k = omega arith in
                    subst (λ (i : ℕ). get_elem? lines i ≡ some line) (sym e) at);
              finds = finds;
              text = refl;
            },
          ))
          old m (subst (In m) same l)
  ]

  at_cap-IsBelow : (s : GrepState) → at_cap s ≡ false → IsBelow s
  at_cap-IsBelow s h = (ground (arith, h), ground (arith, h), ground (arith, h))

  grep_files-keeps :
      (all files : List WalkedFile) (s : GrepState)
      → ((file : WalkedFile) → In file files → In file all)
      → IsBounded s
      → ((m : Match) → In m s.matches → IsMatch all m)
      → IsBounded (grep_files pattern matches_glob files s)
        × ((m : Match) → In m (grep_files pattern matches_glob files s).matches → IsMatch all m)
  unfolding grep_files
  grep_files-keeps all [] s within bounded old = (bounded, old)
  grep_files-keeps all (file ∷ files) s within bounded old = elim (Bool-cases (at_cap s)) [
    | inl full ↦ rw (grep_files, full) (bounded, old)
    | inr below ↦
        rw (grep_files, below)
          (grep_files-keeps all files (grep_file pattern matches_glob file s)
            (λ f l. within f (there l)) (grep_file-IsBounded file s (at_cap-IsBelow s below))
            (grep_file-All all file s (within file (here refl)) old))
  ]

  -- A search of the checkout shows at most 40 matches, reads at most 2000 files, and loads less than the
  -- cap of bytes and one file more. Each match is a line of a file of the walk that the glob lets through
  -- and that resolves within the root; the pattern finds it at that number, and it is shown cut short.
  pub grep_files-IsBounded :
      (files : List WalkedFile)
      → let s = grep_files pattern matches_glob files no_files in
        (length s.matches ≤ max_grep_matches)
        × (s.scanned ≤ max_grep_files)
        × (s.loaded < max_grep_bytes + max_file_bytes)
        × ((m : Match) → In m s.matches → (file : WalkedFile) × In file files × IsMatchIn file m)
  grep_files-IsBounded files =
      let kept =
        grep_files-keeps files files no_files (λ f l. l) (omega arith, omega arith, omega arith)
          (λ m l. elim l [ ]) in
      (kept.0.0, kept.0.1, kept.0.2, kept.1)
