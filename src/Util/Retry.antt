-- ===== src/Util/Retry.antt =====
-- `retry_with_backoff` of harness/util.py. The attempts of the function are given by their outcomes;
-- delays are left out, but the calls of `on_retry` and `sleep` are counted.
use dependabot_harness.Prelude.{
  ℕ, zero, suc, ◌+◌, ◌≤◌, ◌<◌, ◌≡◌, refl, subst, Bool, true, false, arith, if◌then◌else◌, ◌⊎◌, inl,
  inr, Bool-cases,
}

-- What one call of `fn` does: it returns, or raises an exception of `retry_on` or another one.
pub data Attempt {ℓ κ} (E : Type ℓ) (A : Type κ) : Type (ℓ ⊔ κ) where
  returned : A → Attempt E A
  raised : E → Attempt E A
  uncaught : E → Attempt E A

-- How the whole call ends, with the number of times that `fn` was called.
pub data Ending {ℓ κ} (E : Type ℓ) (A : Type κ) : Type (ℓ ⊔ κ) where
  value : ℕ → A → Ending E A
  reraised : ℕ → E → Ending E A
  exhausted : ℕ → Ending E A

zero_add : (n : ℕ) → 0 + n ≡ n
zero_add n = omega arith

shift : (n left : ℕ) → (n + 1) + left ≡ n + suc left
shift n left = omega arith

split : (n k : ℕ) → n ≤ k → (n ≡ k) ⊎ (n + 1 ≤ k)
split n k low = ground (arith, low)

pub Attempt-cases {ℓ κ} :
    {E : Type ℓ} {A : Type κ} (t : Attempt E A)
    → ((a : A) × (t ≡ returned a)) ⊎ (((e : E) × (t ≡ uncaught e)) ⊎ ((e : E) × (t ≡ raised e)))
Attempt-cases (returned a) = inl (a, refl)
Attempt-cases (uncaught e) = inr (inl (e, refl))
Attempt-cases (raised e) = inr (inr (e, refl))

module _ {ℓ κ} {E : Type ℓ} {A : Type κ} (retry_if : E → Bool) (fn : ℕ → Attempt E A) where
  -- The loop from attempt number `n`, with `left` attempts to go.
  unfoldable pub attempts_from : ℕ → ℕ → Ending E A
  attempts_from n zero = exhausted n
  attempts_from n (suc left) = elim (fn n) [
    | returned a ↦ value (n + 1) a
    | uncaught e ↦ reraised (n + 1) e
    | raised e ↦
        let rest = attempts_from (n + 1) left in if retry_if e then rest else reraised (n + 1) e
  ]

  unfoldable pub retry_with_backoff : ℕ → Ending E A
  unfolding attempts_from
  retry_with_backoff attempts = attempts_from 0 attempts

  -- An attempt that is tried again, and one that ends the loop with an exception.
  abbrev pub IsRetried : ℕ → Type (ℓ ⊔ κ)
  IsRetried n = (e : E) × (fn n ≡ raised e) × (retry_if e ≡ true)

  abbrev pub Raises : ℕ → E → Type (ℓ ⊔ κ)
  Raises n e = (fn n ≡ uncaught e) ⊎ (fn n ≡ raised e) × (retry_if e ≡ false)

  -- All attempts from `n` up to `last`, which is left out, are tried again.
  abbrev pub AllRetried : ℕ → ℕ → Type (ℓ ⊔ κ)
  AllRetried n last = (k : ℕ) → n ≤ k → k < last → IsRetried k

  -- What an ending says of the attempts from `n` to `limit`.
  abbrev pub Describes : ℕ → ℕ → Ending E A → Type (ℓ ⊔ κ)
  Describes n limit (value calls a) =
      (k : ℕ) × (calls ≡ k + 1) × (k < limit) × AllRetried n k × (fn k ≡ returned a)
  Describes n limit (reraised calls e) =
      (k : ℕ) × (calls ≡ k + 1) × (k < limit) × AllRetried n k × Raises k e
  Describes n limit (exhausted calls) = (calls ≡ limit) × AllRetried n limit

  none_before : (n : ℕ) → AllRetried n n
  none_before n k low high = absurd (omega (arith, low, high))

  one_more : (n last : ℕ) → IsRetried n → AllRetried (n + 1) last → AllRetried n last
  one_more n last this later k low high = elim (split n k low) [
    | inl same ↦ subst IsRetried same this
    | inr above ↦ later k above high
  ]

  Describes-earlier :
      (n limit : ℕ) (end : Ending E A)
      → IsRetried n
      → Describes (n + 1) limit end
      → Describes n limit end
  Describes-earlier n limit (value calls a) this (k, c, l, before, r) =
      (k, c, l, one_more n k this before, r)
  Describes-earlier n limit (reraised calls e) this (k, c, l, before, r) =
      (k, c, l, one_more n k this before, r)
  Describes-earlier n limit (exhausted calls) this (c, before) = (c, one_more n limit this before)

  attempts_from-Describes : (n left : ℕ) → Describes n (n + left) (attempts_from n left)
  unfolding attempts_from
  attempts_from-Describes n zero = (omega arith, λ k low high. absurd (omega (arith, low, high)))
  attempts_from-Describes n (suc left) = elim (Attempt-cases (fn n)) [
    | inl (a, done) ↦ rw (attempts_from, done) (n, refl, omega arith, none_before n, done)
    | inr (inl (e, thrown)) ↦
        rw (attempts_from, thrown) (n, refl, omega arith, none_before n, inl thrown)
    | inr (inr (e, thrown)) ↦ elim (Bool-cases (retry_if e)) [
      | inr final ↦
          rw (attempts_from, thrown, final)
            (n, refl, omega arith, none_before n, inr (thrown, final))
      | inl again ↦
          rw (attempts_from, thrown, again)
            (Describes-earlier n (n + suc left) (attempts_from (n + 1) left) (e, thrown, again)
              (subst (λ limit. Describes (n + 1) limit (attempts_from (n + 1) left)) (shift n left)
                (attempts_from-Describes (n + 1) left)))
    ]
  ]

  -- With `attempts` attempts the function is called at most that often, and the ending tells of each
  -- one: it returns the first value, it raises the first exception that is not to be retried, and it
  -- is exhausted only when every attempt raised one that is.
  pub retry_with_backoff_lem : (attempts : ℕ) → Describes 0 attempts (retry_with_backoff attempts)
  unfolding retry_with_backoff
  retry_with_backoff_lem attempts =
      subst (λ limit. Describes 0 limit (attempts_from 0 attempts)) (zero_add attempts)
        (attempts_from-Describes 0 attempts)
