-- ===== src/Aimd/Windows.antt =====
-- How often the rate moves: calls that come within a window of the last step change nothing.
use jorb.Base.{
  ℕ, ◌+◌, ◌≤◌, ◌<◌, ◌≡◌, refl, true, false, List, [], ◌∷◌, pos, map, Bool-cases, inl, inr, All,
  arith, if◌then◌else◌,
}
use jorb.Job.{Time}
use jorb.Aimd.Float.{Float64, Bucket}
use jorb.Aimd.{
  Limiter, backs_off, succeeds, run_calls, backoff, on_success, is_merged, is_too_soon, halved,
  raised, raised_rate, apply_limiter_settings_locked, max_duration,
}

-- `t` is less than `d` nanoseconds after `s`.
abbrev pub Within : Time → ℕ → Time → Type 0
Within s d t = (s ≤ t) × (t < s + d)

module _ {F B : Type 0} (f : Float64 F) (g : Bucket F B) where
  open f use {le, lt, eq, incr}

  repeat_merged :
      (a : Limiter F B) (d : ℕ) (times : List Time)
      → a.backoff_debounce_disabled ≡ false
      → a.backoff_debounce ≡ pos d
      → d ≤ max_duration
      → 0 < a.last_backoff
      → All (Within a.last_backoff d) times
      → run_calls f g (map (λ t. (t, backs_off)) times) a ≡ a
  unfolding run_calls backoff
  repeat_merged a d [] on e fits set all = refl
  repeat_merged a d (t ∷ times) on e fits set all =
      let merged : is_merged f g t a ≡ true = ground (arith, all.0) in
      let rest = repeat_merged a d times on e fits set all.1 in ground (arith, merged, rest)

  -- When merging is not disabled: after a backoff that took effect, at a time that is not zero,
  -- any number of backoffs within the debounce change nothing; together they halve the rate
  -- once.
  pub backoff_merges :
      (a : Limiter F B) (now : Time) (d : ℕ) (times : List Time)
      → a.backoff_debounce_disabled ≡ false
      → a.backoff_debounce ≡ pos d
      → d ≤ max_duration
      → 0 < now
      → is_merged f g now a ≡ false
      → All (Within now d) times
      → run_calls f g (map (λ t. (t, backs_off)) times) (backoff f g now a)
        ≡ apply_limiter_settings_locked f g (halved f g now a)
  unfolding backoff apply_limiter_settings_locked
  backoff_merges a now d times on e fits set first all = simp first (
      repeat_merged (apply_limiter_settings_locked f g (halved f g now a)) d times on e fits set
        all)

  repeat_too_soon :
      (a : Limiter F B) (d : ℕ) (times : List Time)
      → a.increase_interval ≡ pos d
      → d ≤ max_duration
      → 0 < a.last_increase
      → All (Within a.last_increase d) times
      → run_calls f g (map (λ t. (t, succeeds)) times) a ≡ a
  unfolding run_calls on_success
  repeat_too_soon a d [] e fits set all = refl
  repeat_too_soon a d (t ∷ times) e fits set all =
      let soon : is_too_soon f g t a ≡ true = ground (arith, all.0) in
      let rest = repeat_too_soon a d times e fits set all.1 in ground (arith, soon, rest)

  -- Below the maximum, and with no increase too recent, a success at a time that is not zero raises the
  -- rate by one step, to the maximum at most, and notes its time; any number of successes within the
  -- interval after it change nothing.
  pub increase_waits :
      (a : Limiter F B) (now : Time) (d : ℕ) (times : List Time)
      → a.increase_interval ≡ pos d
      → d ≤ max_duration
      → 0 < now
      → le a.max_rate a.current ≡ false
      → is_too_soon f g now a ≡ false
      → All (Within now d) times
      → ((on_success f g now a).current
          ≡ (if lt a.max_rate (incr a.current) then a.max_rate else incr a.current))
        × ((on_success f g now a).last_increase ≡ now)
        × (run_calls f g (map (λ t. (t, succeeds)) times) (on_success f g now a)
            ≡ on_success f g now a)
  unfolding on_success apply_limiter_settings_locked
  increase_waits a now d times e fits set below late all =
      elim (Bool-cases (eq (raised_rate f g a) a.current)) [
        | inl same ↦
            rw (below, late, same)
              (refl, refl, repeat_too_soon (raised f g now a) d times e fits set all)
        | inr moved ↦
            rw (below, late, moved)
              (
                refl,
                refl,
                repeat_too_soon (apply_limiter_settings_locked f g (raised f g now a)) d times e
                    fits set all,
              )
      ]

  -- A backoff that took effect reopens the interval: if it leaves the rate below the maximum, the next
  -- success raises it by one step, however soon it comes.
  recovery_starts_at_once :
      (a : Limiter F B) (now later : Time)
      → is_merged f g now a ≡ false
      → le a.max_rate (halved f g now a).current ≡ false
      → (on_success f g later (backoff f g now a)).current ≡ raised_rate f g (halved f g now a)
  unfolding on_success backoff apply_limiter_settings_locked
  recovery_starts_at_once a now later first below = ground arith
