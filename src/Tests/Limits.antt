-- ===== src/Tests/Limits.antt =====
-- Witnesses for the AIMD limiter, with rates in billionths.
use jorb.Base.{ℕ, ◌≡◌, refl, Option, some, false, [], ◌∷◌, ℤ, pos, map, arith}
use jorb.Aimd.{
  Config, Limiter, new_aimd_rate_limiter, new_aimd_rate_limiter_with_config, backoff, on_success,
  run_calls, backs_off, succeeds, normalize_aimd_rates, apply_limiter_settings_locked, halved,
}
use jorb.Aimd.Float.{billionths, billionths-IsIeee, settings, settings-IsBucket}
use jorb.Aimd.Bounds.{IsTuned, used_limiter-IsTuned}
use jorb.Aimd.Windows.{backoff_merges, increase_waits}

-- 8 per second at first, between 1 and 10; increases a second apart, backoffs half a second.
abbrev config : Config (Option ℕ)
config = record {
  initial = some 8_000_000_000;
  min_rate = some 1_000_000_000;
  max_rate = some 10_000_000_000;
  increase_interval = pos 0;
  backoff_debounce = pos 0;
  disable_backoff_merge = false;
}

abbrev limiter : Limiter (Option ℕ) (Option ℕ × ℤ)
limiter = new_aimd_rate_limiter_with_config billionths settings config

-- The bounds are swapped, and the initial rate is not positive.
normalize_swapped :
    normalize_aimd_rates billionths (some 0) (some 10_000_000_000) (some 1_000_000_000)
    ≡ (some 1_000_000_000, some 1_000_000_000, some 10_000_000_000)
unfolding normalize_aimd_rates
normalize_swapped = refl

-- Two backoffs, of which the second is merged, and a success.
used_limiter-IsTuned_example : IsTuned billionths settings (
    run_calls billionths settings ((100, backs_off) ∷ (200, backs_off) ∷ (300, succeeds) ∷ []) (
      new_aimd_rate_limiter billionths settings
        (some 8_000_000_000)
        (some 1_000_000_000)
        (some 10_000_000_000)))
used_limiter-IsTuned_example =
    used_limiter-IsTuned billionths billionths-IsIeee settings settings-IsBucket
      (some 8_000_000_000) (some 1_000_000_000) (some 10_000_000_000)
      ((100, backs_off) ∷ (200, backs_off) ∷ (300, succeeds) ∷ []) refl refl refl

backoff_merges_example :
    run_calls billionths settings
      (map (λ t. (t, backs_off)) (100 ∷ 7_000 ∷ []))
      (backoff billionths settings 100 limiter)
    ≡ apply_limiter_settings_locked billionths settings (halved billionths settings 100 limiter)
unfolding new_aimd_rate_limiter_with_config apply_limiter_settings_locked
backoff_merges_example =
    backoff_merges billionths settings limiter 100 500_000_000 (100 ∷ 7_000 ∷ []) refl refl
      (omega arith) (omega arith) refl
      ((omega arith, omega arith), ((omega arith, omega arith), tt))

increase_waits_example :
    ((on_success billionths settings 100 limiter).current ≡ some 9_000_000_000)
    × ((on_success billionths settings 100 limiter).last_increase ≡ 100)
    × (run_calls billionths settings
          (map (λ t. (t, succeeds)) (100 ∷ 7_000 ∷ []))
          (on_success billionths settings 100 limiter)
        ≡ on_success billionths settings 100 limiter)
unfolding new_aimd_rate_limiter_with_config apply_limiter_settings_locked normalize_aimd_rates
increase_waits_example =
    increase_waits billionths settings limiter 100 1_000_000_000 (100 ∷ 7_000 ∷ []) refl
      (omega arith) (omega arith) refl refl
      ((omega arith, omega arith), ((omega arith, omega arith), tt))
