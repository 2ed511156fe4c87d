-- ===== src/Aimd.antt =====
-- ratelimit.go, the AIMD rate limiter. A `float64` enters through the operations that the code uses,
-- and the token bucket of golang.org/x/time/rate through the three calls that set it. Each reading of
-- the clock is an argument; logging is left out.
pub mod Float
pub mod Bounds
pub mod Windows
use Prim.Native.Nat.{min}
use jorb.Base.{
  ℕ, List, [], ◌∷◌, ◌-◌, ◌^◌, Bool, true, false, not, ◌&&◌, ◌||◌, ℤ, pos, negsuc, sub_ℕ, ltb_ℤ, eqb,
  if◌then◌else◌,
}
use jorb.Job.{Time, millisecond}
use Float.{Float64, Bucket}

-- Durations are int64 nanoseconds.
abbrev pub Duration : Type 0
Duration = ℤ

abbrev pub max_duration : ℕ
max_duration = 2 ^ 63 - 1

abbrev saturate : ℤ → Duration
saturate (pos n) = pos (min n max_duration)
saturate (negsuc n) = negsuc (min n max_duration)

-- `t.Sub(u)`
abbrev pub time_sub : Time → Time → Duration
time_sub t u = saturate (sub_ℕ t u)

-- `t.IsZero()`
abbrev pub is_zero : Time → Bool
is_zero t = eqb t 0

abbrev pub default_increase_interval : Duration
default_increase_interval = pos 1_000_000_000

abbrev pub default_backoff_debounce : Duration
default_backoff_debounce = pos 500_000_000

abbrev pub duration_is_zero : Duration → Bool
duration_is_zero (pos n) = eqb n 0
duration_is_zero (negsuc n) = false

pub record Config (F : Type 0) : Type 0 where
  pub initial : F
  pub min_rate : F
  pub max_rate : F
  pub increase_interval : Duration
  pub backoff_debounce : Duration
  pub disable_backoff_merge : Bool

-- The configuration whose other fields are zero.
abbrev pub rates_only : {F : Type 0} → F → F → F → Config F
rates_only initial min_rate max_rate = record {
  initial = initial;
  min_rate = min_rate;
  max_rate = max_rate;
  increase_interval = pos 0;
  backoff_debounce = pos 0;
  disable_backoff_merge = false;
}

pub record Limiter (F B : Type 0) : Type 0 where
  pub lim : B
  pub current : F
  pub min_rate : F
  pub max_rate : F
  pub increase_interval : Duration
  pub backoff_debounce_disabled : Bool
  pub backoff_debounce : Duration
  pub last_backoff : Time
  pub last_increase : Time

module _ {F : Type 0} (f : Float64 F) where
  open f use {le, lt, zero, tiny, ceil}

  -- the three rates, as initial, min and max
  unfoldable pub normalize_aimd_rates : F → F → F → F × F × F
  normalize_aimd_rates initial min_v max_v =
      let swapped = lt max_v min_v in
      let lo = if swapped then max_v else min_v in
      let hi = if swapped then min_v else max_v in
      let lo' = if lt lo tiny then tiny else lo in
      let hi' = if lt hi lo' then lo' else hi in
      let start = if le initial zero || lt initial lo' then lo' else initial in
      (if lt hi' start then hi' else start, lo', hi')

  unfoldable pub burst_for_rate : F → ℤ
  burst_for_rate r = if le r zero then pos 1 else if ltb_ℤ (ceil r) (pos 1) then pos 1 else ceil r

module _ {F B : Type 0} (f : Float64 F) (g : Bucket F B) where
  open f use {le, lt, eq, halve, incr}
  open g use {new_limiter, set_limit, set_burst}

  unfoldable pub apply_limiter_settings_locked : Limiter F B → Limiter F B
  apply_limiter_settings_locked a = record a {
    lim = set_burst (set_limit a.lim a.current) (burst_for_rate f a.current);
  }

  unfoldable pub new_aimd_rate_limiter_with_config : Config F → Limiter F B
  unfolding apply_limiter_settings_locked
  new_aimd_rate_limiter_with_config cfg =
      let (initial, min_r, max_r) = normalize_aimd_rates f cfg.initial cfg.min_rate cfg.max_rate in
      let off = cfg.disable_backoff_merge in
      let debounce =
        if off
        then pos 0
        else if duration_is_zero cfg.backoff_debounce
        then default_backoff_debounce
        else cfg.backoff_debounce in
      apply_limiter_settings_locked (record {
        lim = new_limiter initial (burst_for_rate f initial);
        current = initial;
        min_rate = min_r;
        max_rate = max_r;
        increase_interval =
            if duration_is_zero cfg.increase_interval
            then default_increase_interval
            else cfg.increase_interval;
        backoff_debounce_disabled = off;
        backoff_debounce = debounce;
        last_backoff = 0;
        last_increase = 0;
      })

  -- `NewAIMDRateLimiter`
  unfoldable pub new_aimd_rate_limiter : F → F → F → Limiter F B
  unfolding new_aimd_rate_limiter_with_config
  new_aimd_rate_limiter initial min_rate max_rate =
      new_aimd_rate_limiter_with_config (rates_only initial min_rate max_rate)

  -- the second of two backoffs within the debounce
  abbrev pub is_merged : Time → Limiter F B → Bool
  is_merged now a =
      not a.backoff_debounce_disabled
      && not (is_zero a.last_backoff)
      && ltb_ℤ (time_sub now a.last_backoff) a.backoff_debounce

  abbrev pub halved : Time → Limiter F B → Limiter F B
  halved now a =
      let half = halve a.current in
      record a {
        last_backoff = now;
        last_increase = 0;
        current = if lt half a.min_rate then a.min_rate else half;
      }

  unfoldable pub backoff : Time → Limiter F B → Limiter F B
  unfolding apply_limiter_settings_locked
  backoff now a = if is_merged now a then a else apply_limiter_settings_locked (halved now a)

  -- the last increase was less than the interval ago
  abbrev pub is_too_soon : Time → Limiter F B → Bool
  is_too_soon now a =
      not (is_zero a.last_increase) && ltb_ℤ (time_sub now a.last_increase) a.increase_interval

  -- the rate after one increase
  abbrev pub raised_rate : Limiter F B → F
  raised_rate a = let up = incr a.current in if lt a.max_rate up then a.max_rate else up

  abbrev pub raised : Time → Limiter F B → Limiter F B
  raised now a = record a { last_increase = now; current = raised_rate a }

  unfoldable pub on_success : Time → Limiter F B → Limiter F B
  unfolding apply_limiter_settings_locked
  on_success now a =
      if le a.max_rate a.current
      then a
      else if is_too_soon now a
      then a
      else if eq (raised_rate a) a.current
      then raised now a
      else apply_limiter_settings_locked (raised now a)

-- What the workers of a state call on its limiter, in the order in which they get its lock.
pub data Call : Type 0 where
  backs_off succeeds : Call

module _ {F B : Type 0} (f : Float64 F) (g : Bucket F B) where
  unfoldable pub run_calls : List (Time × Call) → Limiter F B → Limiter F B
  run_calls [] a = a
  run_calls ((now, backs_off) ∷ calls) a = run_calls calls (backoff f g now a)
  run_calls ((now, succeeds) ∷ calls) a = run_calls calls (on_success f g now a)
