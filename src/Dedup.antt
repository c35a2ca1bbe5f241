-- ===== src/Dedup.antt =====
-- harness/dedup/index.py: the inverted index over alerts, and the shortlist of those that plausibly
-- share a fix. A `defaultdict(list)` is an association list; `_major` is none where the source
-- answers -1, for a version that does not parse.
pub mod Shortlist
pub mod Trivial
use Prim.Native.Nat.{compare, Ordering}
use dependabot_harness.Prelude.{
  ℕ, ◌+◌, ◌≡◌, Bool, true, false, not, ◌&&◌, ◌||◌, String, Option, none, some, List, [], ◌∷◌, ◌++◌,
  Text, codes, filter, take, or_default, nat_beq, ltb, ◌==◌, string_eq, text_eq, if◌then◌else◌,
}
use dependabot_harness.Prelude.Order.{compare_list, compare_pair}
use dependabot_harness.Alert.{AlertRecord}
use dependabot_harness.Version.{Version, major}
use dependabot_harness.Version.Parse.{try_parse}

-- `_major`
unfoldable pub major_of : AlertRecord → Option ℕ
major_of alert = elim (try_parse alert.resolved_ver) [ none ↦ none | some v ↦ some (major v) ]

abbrev same_major : Option ℕ → Option ℕ → Bool
same_major none none = true
same_major none (some n) = false
same_major (some m) none = false
same_major (some m) (some n) = nat_beq m n

abbrev pub Packages : Type 0
Packages = Text × Option ℕ

abbrev pub Manifests : Type 0
Manifests = String × Text

abbrev pub same_package : Packages → Packages → Bool
same_package (p, m) (q, n) = p == q && same_major m n

abbrev pub same_manifest : Manifests → Manifests → Bool
same_manifest (r, p) (s, q) = r == s && p == q

abbrev pub same_text : String → String → Bool
same_text a b = a == b

module _ {ℓ} {K : Type ℓ} (same : K → K → Bool) where
  -- `index[k].append(key)`
  unfoldable pub append_at : K → String → List (K × List String) → List (K × List String)
  append_at k key [] = (k, key ∷ []) ∷ []
  append_at k key ((other, keys) ∷ index) =
      let rest = append_at k key index in
      if same other k then (other, keys ++ key ∷ []) ∷ index else (other, keys) ∷ rest

  -- `index.get(k, [])`
  unfoldable pub keys_at : K → List (K × List String) → List String
  keys_at k [] = []
  keys_at k ((other, keys) ∷ index) = if same other k then keys else keys_at k index

pub record InvertedIndex : Type 0 where
  pub by_ghsa : List (String × List String)
  pub by_purl_major : List (Packages × List String)
  pub by_symbol : List (String × List String)
  pub by_manifest : List (Manifests × List String)
  pub alerts : List (String × AlertRecord)

abbrev pub package_of : AlertRecord → Packages
package_of alert = (alert.purl, major_of alert)

abbrev pub manifest_of : AlertRecord → Manifests
manifest_of alert = (alert.repo, alert.manifest_path)

unfoldable pub append_symbols :
    List String → String → List (String × List String) → List (String × List String)
append_symbols [] key index = index
append_symbols (s ∷ symbols) key index =
    append_symbols symbols key (append_at same_text s key index)

-- `self.alerts[key] = alert`
unfoldable pub put_alert : AlertRecord → List (String × AlertRecord) → List (String × AlertRecord)
put_alert alert [] = (alert.alert_key, alert) ∷ []
put_alert alert ((key, old) ∷ alerts) =
    let rest = put_alert alert alerts in
    if key == alert.alert_key then (key, alert) ∷ alerts else (key, old) ∷ rest

-- The body of the loop in `build`.
unfoldable pub add_alert : InvertedIndex → AlertRecord → InvertedIndex
add_alert index alert = record {
  by_ghsa = append_at same_text alert.ghsa_id alert.alert_key index.by_ghsa;
  by_purl_major = append_at same_package (package_of alert) alert.alert_key index.by_purl_major;
  by_symbol = append_symbols (or_default alert.symbols []) alert.alert_key index.by_symbol;
  by_manifest = append_at same_manifest (manifest_of alert) alert.alert_key index.by_manifest;
  alerts = put_alert alert index.alerts;
}

unfoldable pub build_from : InvertedIndex → List AlertRecord → InvertedIndex
build_from index [] = index
build_from index (alert ∷ alerts) = build_from (add_alert index alert) alerts

-- `InvertedIndex.build`
unfoldable pub build_index : List AlertRecord → InvertedIndex
build_index alerts =
    build_from
      (record { by_ghsa = []; by_purl_major = []; by_symbol = []; by_manifest = []; alerts = [] })
      alerts

abbrev pub Scores : Type 0
Scores = List (String × ℕ)

-- `scores[key] += points`
unfoldable pub add_score : ℕ → String → Scores → Scores
add_score points key [] = (key, points) ∷ []
add_score points key ((k, n) ∷ scores) =
    let rest = add_score points key scores in
    if k == key then (k, n + points) ∷ scores else (k, n) ∷ rest

unfoldable pub add_scores : ℕ → List String → Scores → Scores
add_scores points [] scores = scores
add_scores points (key ∷ keys) scores = add_scores points keys (add_score points key scores)

unfoldable pub add_symbol_scores : InvertedIndex → List String → Scores → Scores
add_symbol_scores index [] scores = scores
add_symbol_scores index (s ∷ symbols) scores =
    add_symbol_scores index symbols (add_scores 2 (keys_at same_text s index.by_symbol) scores)

-- The scores of `candidates`, without the alert itself.
unfoldable pub scores_of : InvertedIndex → AlertRecord → Scores
scores_of index alert =
    let ghsa = add_scores 8 (keys_at same_text alert.ghsa_id index.by_ghsa) [] in
    let package_scores =
      add_scores 4 (keys_at same_package (package_of alert) index.by_purl_major) ghsa in
    let symbols = add_symbol_scores index (or_default alert.symbols []) package_scores in
    let total =
      add_scores 1 (keys_at same_manifest (manifest_of alert) index.by_manifest) symbols in
    filter (λ (k, n). not (k == alert.alert_key)) total

-- `(-score, key)`: the higher score, and the smaller key where they are equal.
abbrev pub reversed : ℕ → ℕ → Ordering
reversed m n = compare n m

abbrev pub rank : String × ℕ → ℕ × Text
rank (key, score) = (score, codes key)

abbrev pub compare_rank : ℕ × Text → ℕ × Text → Ordering
compare_rank = compare_pair reversed (compare_list compare)

unfoldable pub ranks_before : String × ℕ → String × ℕ → Bool
ranks_before e x = elim (compare_rank (rank e) (rank x)) [ Ordering.gt ↦ false | _ ↦ true ]

unfoldable pub insert_ranked : String × ℕ → Scores → Scores
insert_ranked e [] = e ∷ []
insert_ranked e (x ∷ xs) =
    let rest = insert_ranked e xs in if ranks_before e x then e ∷ x ∷ xs else x ∷ rest

-- `sorted`, by insertion.
unfoldable pub ranked : Scores → Scores
unfolding insert_ranked
ranked [] = []
ranked (e ∷ es) = insert_ranked e (ranked es)

unfoldable pub keys_of : Scores → List String
keys_of [] = []
keys_of ((k, n) ∷ scores) = k ∷ keys_of scores

-- `candidates`
unfoldable pub candidates : InvertedIndex → AlertRecord → ℕ → List String
candidates index alert limit = keys_of (take limit (ranked (scores_of index alert)))
