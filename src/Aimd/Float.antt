-- ===== src/Aimd/Float.antt =====
-- The operations on `float64` that ratelimit.go uses, with the laws of IEEE 754 that it relies on, and
-- the calls of golang.org/x/time/rate. NaN is the value that is not `<=` itself.
use jorb.Base.{
  ℕ, ◌+◌, ◌/◌, ◌≡◌, ◌⊎◌, Bool, true, false, not, Option, none, some, ℤ, pos, ltb, leb, eqb, arith,
}

pub record Float64 (F : Type 0) : Type 0 where
  pub le : F → F → Bool
  pub lt : F → F → Bool
  pub eq : F → F → Bool
  pub zero : F
  -- 1e-9
  pub tiny : F
  -- x * 0.5
  pub halve : F → F
  -- x + 1
  pub incr : F → F
  -- int(math.Ceil(x))
  pub ceil : F → ℤ

infix 4 ◌≼◌
abbrev pub ◌≼◌ : {F : Type 0} ⦃f : Float64 F⦄ → F → F → Type 0
◌≼◌ ⦃f⦄ x y = f.le x y ≡ true

pub record IsIeee {F : Type 0} (f : Float64 F) : Type 0 where
  pub numbers : (x y : F) → f.le x y ≡ true → (f.le x x ≡ true) × (f.le y y ≡ true)
  pub trans : (x y z : F) → f.le x y ≡ true → f.le y z ≡ true → f.le x z ≡ true
  pub lt-eq-not-le : (x y : F) → f.le x x ≡ true → f.le y y ≡ true → f.lt x y ≡ not (f.le y x)
  pub total : (x y : F) → f.le x x ≡ true → f.le y y ≡ true → (f.le x y ≡ true) ⊎ (f.le y x ≡ true)
  pub zero_tiny : f.le f.zero f.tiny ≡ true
  pub halve-le : (x : F) → f.le f.zero x ≡ true → f.le (f.halve x) x ≡ true
  pub le-incr : (x : F) → f.le x x ≡ true → f.le x (f.incr x) ≡ true
  -- numbers that compare equal and are at least 1e-9 are the same
  pub eq_same : (x y : F) → f.le f.tiny y ≡ true → f.eq x y ≡ true → x ≡ y

-- A token bucket: its rate and its burst can be set, and read back.
pub record Bucket (F B : Type 0) : Type 0 where
  pub new_limiter : F → ℤ → B
  pub set_limit : B → F → B
  pub set_burst : B → ℤ → B
  pub limit : B → F
  pub burst : B → ℤ

pub record IsBucket {F B : Type 0} (g : Bucket F B) : Type 0 where
  pub limit-set_limit : (b : B) (r : F) → g.limit (g.set_limit b r) ≡ r
  pub limit-set_burst : (b : B) (n : ℤ) → g.limit (g.set_burst b n) ≡ g.limit b
  pub burst-set_burst : (b : B) (n : ℤ) → g.burst (g.set_burst b n) ≡ n

-- The laws can be met: whole billionths, with `none` for NaN, and a bucket that is its settings.
abbrev on_numbers : (ℕ → ℕ → Bool) → Option ℕ → Option ℕ → Bool
on_numbers test (some a) (some b) = test a b
on_numbers test _ _ = false

abbrev on_number : (ℕ → ℕ) → Option ℕ → Option ℕ
on_number op none = none
on_number op (some a) = some (op a)

abbrev ceil_of : Option ℕ → ℤ
ceil_of none = pos 0
ceil_of (some a) = pos ((a + 999_999_999) / 1_000_000_000)

abbrev pub billionths : Float64 (Option ℕ)
billionths = record {
  le = on_numbers leb;
  lt = on_numbers ltb;
  eq = on_numbers eqb;
  zero = some 0;
  tiny = some 1;
  halve = on_number (λ a. a / 2);
  incr = on_number (λ a. a + 1_000_000_000);
  ceil = ceil_of;
}

pub billionths-IsIeee : IsIeee billionths
billionths-IsIeee = ground arith

abbrev pub settings : Bucket (Option ℕ) (Option ℕ × ℤ)
settings = record {
  new_limiter = λ r n. (r, n);
  set_limit = λ (r, n) q. (q, n);
  set_burst = λ (r, n) m. (r, m);
  limit = λ (r, n). r;
  burst = λ (r, n). n;
}

pub settings-IsBucket : IsBucket settings
settings-IsBucket = ground arith
