-- ===== src/Aimd/Bounds.antt =====
-- The rates stay in their bounds, whatever the configuration and the order of calls.
use jorb.Base.{
  ◌≡◌, sym, ap, ◌∙◌, ◌||◌, refl, ◌⊎◌, Bool, true, false, List, [], ◌∷◌, if◌then◌else◌, arith,
}
use jorb.Job.{Time}
use jorb.Aimd.Float.{Float64, IsIeee, Bucket, IsBucket}
use jorb.Aimd.{
  Config, Limiter, normalize_aimd_rates, burst_for_rate, apply_limiter_settings_locked, rates_only,
  new_aimd_rate_limiter, new_aimd_rate_limiter_with_config, backoff, on_success, raised,
  raised_rate, halved, is_merged, is_too_soon, Call, backs_off, succeeds, run_calls,
}

if_elim :
    {A : Type 0} (b : Bool) (P : A → Type 0) (x y : A)
    → (b ≡ true → P x)
    → (b ≡ false → P y)
    → P (if b then x else y)
if_elim true P x y p q = p refl
if_elim false P x y p q = q refl

module _ {F : Type 0} (f : Float64 F) (laws : IsIeee f) where
  open f use {le, lt, zero, tiny, halve, incr}

  lt_total :
      (x y : F)
      → le x x ≡ true
      → le y y ≡ true
      → ((lt x y ≡ true) × (le x y ≡ true)) ⊎ ((lt x y ≡ false) × (le y x ≡ true))
  lt_total x y nx ny = ground (arith, laws.total x y nx ny, laws.lt-eq-not-le x y nx ny)

  abbrev IsNumber : F → Type 0
  IsNumber x = le x x ≡ true

  raise_to : (x lo : F) → IsNumber x → IsNumber lo → le lo (if lt x lo then lo else x) ≡ true
  raise_to x lo nx nlo = ground (arith, lt_total x lo nx nlo)

  -- The lower bound, the number itself or the other bound: whichever the code picks is a number.
  pick-IsNumber : (b : Bool) (x y : F) → IsNumber x → IsNumber y → IsNumber (if b then x else y)
  pick-IsNumber b x y nx ny = ground arith

  cap_at :
      (x lo hi : F)
      → le lo x ≡ true
      → le lo hi ≡ true
      → (le lo (if lt hi x then hi else x) ≡ true) × (le (if lt hi x then hi else x) hi ≡ true)
  cap_at x lo hi h k =
      ground (
        arith,
        lt_total hi x (laws.numbers lo hi k).1 (laws.numbers lo x h).1,
        laws.numbers lo hi k,
      )

  start_above :
      (x lo : F) → IsNumber x → IsNumber lo → le lo (if le x zero || lt x lo then lo else x) ≡ true
  start_above x lo nx nlo = ground (arith, lt_total x lo nx nlo)

  -- Given the laws of the arithmetic, and unless an argument is NaN, the three normalized rates
  -- satisfy 1e-9 <= min <= initial <= max.
  normalize_aimd_rates_bounds :
      (initial min_v max_v : F)
      → le initial initial ≡ true
      → le min_v min_v ≡ true
      → le max_v max_v ≡ true
      → let (start, lo, hi) = normalize_aimd_rates f initial min_v max_v in
        (le tiny lo ≡ true) × (le lo start ≡ true) × (le start hi ≡ true)
  unfolding normalize_aimd_rates
  normalize_aimd_rates_bounds i a b ni na nb =
      let lo = if lt b a then b else a in
      let hi = if lt b a then a else b in
      let nlo = pick-IsNumber (lt b a) b a nb na in
      let nhi = pick-IsNumber (lt b a) a b na nb in
      let lo' = if lt lo tiny then tiny else lo in
      let hi' = if lt hi lo' then lo' else hi in
      let above = raise_to lo tiny nlo (laws.numbers zero tiny laws.zero_tiny).1 in
      let nlo' = (laws.numbers tiny lo' above).1 in
      let capped =
        cap_at (if le i zero || lt i lo' then lo' else i) lo' hi' (start_above i lo' ni nlo')
          (raise_to hi lo' nhi nlo') in
      (above, capped.0, capped.1)

module _ {F B : Type 0} (f : Float64 F) (g : Bucket F B) where
  open f use {le, tiny}

  -- The rate lies between the bounds, and the token bucket has the rate and its burst.
  pub record IsTuned (a : Limiter F B) : Type 0 where
    pub floor : le tiny a.min_rate ≡ true
    pub above : le a.min_rate a.current ≡ true
    pub below : le a.current a.max_rate ≡ true
    pub rate : g.limit a.lim ≡ a.current
    pub burst : g.burst a.lim ≡ burst_for_rate f a.current

module _ {F B : Type 0} (f : Float64 F) (laws : IsIeee f) (g : Bucket F B)
    (bucket : IsBucket g) where
  open f use {le, lt, eq, zero, tiny, halve, incr}

  apply_limiter_settings_locked-IsTuned :
      (a : Limiter F B)
      → le tiny a.min_rate ≡ true
      → le a.min_rate a.current ≡ true
      → le a.current a.max_rate ≡ true
      → IsTuned f g (apply_limiter_settings_locked f g a)
  unfolding apply_limiter_settings_locked
  apply_limiter_settings_locked-IsTuned a h k m = record {
    floor = h;
    above = k;
    below = m;
    rate = bucket.limit-set_burst _ _ ∙ bucket.limit-set_limit a.lim a.current;
    burst = bucket.burst-set_burst _ _;
  }

  -- Given the laws of the arithmetic and of the bucket, a limiter made from rates that are not
  -- NaN is tuned.
  new_aimd_rate_limiter_with_config-IsTuned :
      (cfg : Config F)
      → le cfg.initial cfg.initial ≡ true
      → le cfg.min_rate cfg.min_rate ≡ true
      → le cfg.max_rate cfg.max_rate ≡ true
      → IsTuned f g (new_aimd_rate_limiter_with_config f g cfg)
  unfolding new_aimd_rate_limiter_with_config
  new_aimd_rate_limiter_with_config-IsTuned cfg ni na nb =
      let h = normalize_aimd_rates_bounds f laws cfg.initial cfg.min_rate cfg.max_rate ni na nb in
      apply_limiter_settings_locked-IsTuned _ h.0 h.1 h.2

  halved_rate :
      (a : Limiter F B)
      → IsTuned f g a
      → let half = halve a.current in
        let c = if lt half a.min_rate then a.min_rate else half in
        (le a.min_rate c ≡ true) × (le c a.max_rate ≡ true)
  halved_rate a h =
      let pos_current =
        laws.trans zero tiny a.current laws.zero_tiny
          (laws.trans tiny a.min_rate a.current h.floor h.above) in
      let half_le = laws.halve-le a.current pos_current in
      let up =
        raise_to f laws (halve a.current) a.min_rate (laws.numbers _ _ half_le).0
          (laws.numbers _ _ h.above).0 in
      (
        up,
        if_elim (lt (halve a.current) a.min_rate) (λ c. le c a.max_rate ≡ true) _ _
            (λ e. laws.trans _ _ _ h.above h.below) (λ e. laws.trans _ _ _ half_le h.below),
      )

  raised_rate_bounds :
      (a : Limiter F B)
      → IsTuned f g a
      → (le a.min_rate (raised_rate f g a) ≡ true) × (le (raised_rate f g a) a.max_rate ≡ true)
  raised_rate_bounds a h =
      cap_at f laws (incr a.current) a.min_rate a.max_rate
        (laws.trans _ _ _ h.above (laws.le-incr a.current (laws.numbers _ _ h.above).1))
        (laws.trans _ _ _ h.above h.below)

  -- The code leaves the bucket alone when the rate has not moved.
  unmoved :
      (a : Limiter F B) (now : Time)
      → IsTuned f g a
      → (le a.min_rate (raised_rate f g a) ≡ true) × (le (raised_rate f g a) a.max_rate ≡ true)
      → eq (raised_rate f g a) a.current ≡ true
      → IsTuned f g (record a { last_increase = now; current = raised_rate f g a })
  unmoved a now h up e =
      let same = laws.eq_same _ _ (laws.trans _ _ _ h.floor h.above) e in
      record {
        floor = h.floor;
        above = up.0;
        below = up.1;
        rate = h.rate ∙ sym same;
        burst = h.burst ∙ ap (burst_for_rate f) (sym same);
      }

  backoff-IsTuned : (now : Time) (a : Limiter F B) → IsTuned f g a → IsTuned f g (backoff f g now a)
  unfolding backoff
  backoff-IsTuned now a h =
      let half = halved_rate a h in
      if_elim (is_merged f g now a) (IsTuned f g) a
        (apply_limiter_settings_locked f g (halved f g now a)) (λ e. h)
        (λ e. apply_limiter_settings_locked-IsTuned (halved f g now a) h.floor half.0 half.1)

  on_success-IsTuned :
      (now : Time) (a : Limiter F B) → IsTuned f g a → IsTuned f g (on_success f g now a)
  unfolding on_success
  on_success-IsTuned now a h =
      let up = raised_rate_bounds a h in
      let moved = apply_limiter_settings_locked f g (raised f g now a) in
      let changed = if eq (raised_rate f g a) a.current then raised f g now a else moved in
      if_elim (le a.max_rate a.current) (IsTuned f g) a
        (if is_too_soon f g now a then a else changed) (λ e. h)
        λ e.
          if_elim (is_too_soon f g now a) (IsTuned f g) a changed (λ e'. h)
            λ e'.
              if_elim (eq (raised_rate f g a) a.current) (IsTuned f g) (raised f g now a) moved
                (unmoved a now h up)
                (λ e''. apply_limiter_settings_locked-IsTuned (raised f g now a) h.floor up.0 up.1)

  -- Given the laws of the arithmetic and of the bucket, a limiter that is tuned is so after any
  -- calls, whenever they come: its rate lies between the bounds, and the bucket has the rate and
  -- its burst.
  run_calls-IsTuned :
      (calls : List (Time × Call)) (a : Limiter F B)
      → IsTuned f g a
      → IsTuned f g (run_calls f g calls a)
  unfolding run_calls
  run_calls-IsTuned [] a h = h
  run_calls-IsTuned ((now, backs_off) ∷ calls) a h =
      run_calls-IsTuned calls _ (backoff-IsTuned now a h)
  run_calls-IsTuned ((now, succeeds) ∷ calls) a h =
      run_calls-IsTuned calls _ (on_success-IsTuned now a h)

  -- Given the laws of the arithmetic and of the bucket, a limiter that `NewAIMDRateLimiter` makes from
  -- rates that are not NaN is tuned after any calls of `Backoff` and `OnSuccess`, whenever they come: its
  -- rate lies between the bounds, and the bucket has the rate and its burst.
  pub used_limiter-IsTuned :
      (initial min_rate max_rate : F) (calls : List (Time × Call))
      → le initial initial ≡ true
      → le min_rate min_rate ≡ true
      → le max_rate max_rate ≡ true
      → IsTuned f g (run_calls f g calls (new_aimd_rate_limiter f g initial min_rate max_rate))
  unfolding new_aimd_rate_limiter
  used_limiter-IsTuned initial min_rate max_rate calls ni na nb =
      run_calls-IsTuned calls (new_aimd_rate_limiter f g initial min_rate max_rate)
        (new_aimd_rate_limiter_with_config-IsTuned (rates_only initial min_rate max_rate) ni na nb)
