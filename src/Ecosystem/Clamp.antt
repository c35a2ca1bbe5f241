-- ===== src/Ecosystem/Clamp.antt =====
-- What the central clamp guarantees for every adapter.
use dependabot_harness.Prelude.{◌≤◌, ◌≡◌, Bool, true, false, arith, string_eq, refl}
use dependabot_harness.Ecosystem.{
  Adapter, ReachabilityResult, level_value, is_failure, clamp, confidence_ceiling,
}

module _ (adapter : Adapter) (result : ReachabilityResult) (known : Bool) where
  is_failure-clamp : is_failure (clamp adapter result known) ≡ is_failure result
  unfolding clamp is_failure
  is_failure-clamp = refl

  -- On every branch: the confidence is within the ecosystem's ceiling and not above the tool's; the
  -- level is not raised; a failure stays one, at confidence zero; and of a tool that ran without
  -- symbols to look for, the level is at most 2 and the confidence at most one half.
  pub clamp_bounds :
      (level_value (clamp adapter result known).level ≤ level_value result.level)
      × ((clamp adapter result known).confidence ≤ confidence_ceiling adapter)
      × ((clamp adapter result known).confidence ≤ result.confidence)
      × (is_failure (clamp adapter result known) ≡ is_failure result)
      × (is_failure result ≡ true → (clamp adapter result known).confidence ≡ 0)
      × (is_failure result ≡ false
          → known ≡ false
          → (level_value (clamp adapter result known).level ≤ 2)
            × ((clamp adapter result known).confidence ≤ 5000))
  unfolding clamp
  clamp_bounds = (
    ground arith,
    ground arith,
    ground arith,
    is_failure-clamp,
    λ h. ground arith,
    λ h k. (ground arith, ground arith),
  )

  -- Clamping again changes nothing.
  pub clamp_idem : clamp adapter (clamp adapter result known) known ≡ clamp adapter result known
  unfolding clamp
  clamp_idem = ground (arith, is_failure-clamp)
