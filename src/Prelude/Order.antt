-- ===== src/Prelude/Order.antt =====
-- Comparators, as Python compares tuples: lexicographically. One law record, and its closure
-- under pairs and lists.
use Prim.Native.Nat.{compare, Ordering}
use dependabot_harness.Prelude.{◌≡◌, refl, ◌↔◌, List, [], ◌∷◌, arith}

abbrev pub then_cmp : Ordering → Ordering → Ordering
then_cmp Ordering.lt o = Ordering.lt
then_cmp Ordering.eq o = o
then_cmp Ordering.gt o = Ordering.gt

abbrev pub flip : Ordering → Ordering
flip Ordering.lt = Ordering.gt
flip Ordering.eq = Ordering.eq
flip Ordering.gt = Ordering.lt

pub record IsComparator {ℓ} {A : Type ℓ} (cmp : A → A → Ordering) : Type ℓ where
  pub eq_iff : (a b : A) → (cmp a b ≡ Ordering.eq) ↔ (a ≡ b)
  pub flips : (a b : A) → cmp b a ≡ flip (cmp a b)
  pub lt_trans : (a b c : A) → cmp a b ≡ Ordering.lt → cmp b c ≡ Ordering.lt → cmp a c ≡ Ordering.lt

pub compare-IsComparator : IsComparator compare
compare-IsComparator = record {
  eq_iff = λ a b. ground arith;
  flips = λ a b. ground arith;
  lt_trans = λ a b c p q. ground arith;
}

module _ {ℓ κ} {A : Type ℓ} {B : Type κ} (f : A → A → Ordering) (g : B → B → Ordering) where
  abbrev pub compare_pair : A × B → A × B → Ordering
  compare_pair p q = then_cmp (f p.0 q.0) (g p.1 q.1)

module _ {ℓ κ} {A : Type ℓ} {B : Type κ} {f : A → A → Ordering} {g : B → B → Ordering}
    (fc : IsComparator f) (gc : IsComparator g) where
  pub compare_pair-IsComparator : IsComparator (compare_pair f g)
  compare_pair-IsComparator = record {
    eq_iff = λ p q. ground (arith, fc.eq_iff p.0 q.0, gc.eq_iff p.1 q.1);
    flips = λ p q. ground (arith, fc.flips p.0 q.0, gc.flips p.1 q.1);
    lt_trans = λ p q r. ground (
      arith,
      fc.eq_iff p.0 q.0,
      fc.eq_iff q.0 r.0,
      fc.eq_iff p.0 r.0,
      fc.lt_trans p.0 q.0 r.0,
      gc.lt_trans p.1 q.1 r.1,
    );
  }

module _ {ℓ} {A : Type ℓ} (f : A → A → Ordering) where
  abbrev pub compare_list : List A → List A → Ordering
  compare_list [] [] = Ordering.eq
  compare_list [] (y ∷ ys) = Ordering.lt
  compare_list (x ∷ xs) [] = Ordering.gt
  compare_list (x ∷ xs) (y ∷ ys) = then_cmp (f x y) (compare_list xs ys)

module _ {ℓ} {A : Type ℓ} {f : A → A → Ordering} (fc : IsComparator f) where
  list_eq : (xs ys : List A) → (compare_list f xs ys ≡ Ordering.eq) ↔ (xs ≡ ys)
  list_eq [] [] = (λ h. refl, λ h. refl)
  list_eq [] (y ∷ ys) = (λ h. cc, λ h. cc)
  list_eq (x ∷ xs) [] = (λ h. cc, λ h. cc)
  list_eq (x ∷ xs) (y ∷ ys) = ground (arith, fc.eq_iff x y, list_eq xs ys)

  list_flips : (xs ys : List A) → compare_list f ys xs ≡ flip (compare_list f xs ys)
  list_flips [] [] = refl
  list_flips [] (y ∷ ys) = refl
  list_flips (x ∷ xs) [] = refl
  list_flips (x ∷ xs) (y ∷ ys) = ground (arith, fc.flips x y, list_flips xs ys)

  list_lt_trans :
      (xs ys zs : List A)
      → compare_list f xs ys ≡ Ordering.lt
      → compare_list f ys zs ≡ Ordering.lt
      → compare_list f xs zs ≡ Ordering.lt
  list_lt_trans [] [] zs p q = cc
  list_lt_trans [] (y ∷ ys) [] p q = cc
  list_lt_trans [] (y ∷ ys) (z ∷ zs) p q = refl
  list_lt_trans (x ∷ xs) [] zs p q = cc
  list_lt_trans (x ∷ xs) (y ∷ ys) [] p q = cc
  list_lt_trans (x ∷ xs) (y ∷ ys) (z ∷ zs) p q = ground (
    arith,
    fc.eq_iff x y,
    fc.eq_iff y z,
    fc.eq_iff x z,
    fc.lt_trans x y z,
    list_lt_trans xs ys zs,
  )

  pub compare_list-IsComparator : IsComparator (compare_list f)
  compare_list-IsComparator = record {
    eq_iff = list_eq;
    flips = list_flips;
    lt_trans = list_lt_trans;
  }
