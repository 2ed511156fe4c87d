-- ===== src/Base/Numerals.antt =====
-- Different numbers have different numerals.
use Prim.Native.Nat.{ℕ, zero, suc, ◌/◌, ◌%◌, ◌<◌, ◌≤◌}
use Prim.Native.String.{String, ◌++◌, count}
use mathlib.Core.Path.{◌≡◌, refl, sym, ap, ◌∙◌}
use mathlib.Core.Logic.{inl, inr}
use native.Mathlib.Omega.{arith}
use text.Mathlib.Text.{◌==◌}
use text.Mathlib.TextLemmas.{length-append, append_inj}
use jorb.Base.Tests.{ltb, if◌then◌else◌, Bool-cases}
use jorb.Base.Decimal.{digit, decimal_from, decimal}

-- What a digit stands for.
value_of_digit : String → ℕ
value_of_digit s =
    if s == "0"
    then 0
    else if s == "1"
    then 1
    else if s == "2"
    then 2
    else if s == "3"
    then 3
    else if s == "4"
    then 4
    else if s == "5"
    then 5
    else if s == "6"
    then 6
    else if s == "7"
    then 7
    else if s == "8"
    then 8
    else 9

value_of_digit-digit : (d : ℕ) → d < 10 → value_of_digit (digit d) ≡ d
unfolding digit value_of_digit
value_of_digit-digit zero h = refl
value_of_digit-digit (suc zero) h = refl
value_of_digit-digit (suc (suc zero)) h = refl
value_of_digit-digit (suc (suc (suc zero))) h = refl
value_of_digit-digit (suc (suc (suc (suc zero)))) h = refl
value_of_digit-digit (suc (suc (suc (suc (suc zero))))) h = refl
value_of_digit-digit (suc (suc (suc (suc (suc (suc zero)))))) h = refl
value_of_digit-digit (suc (suc (suc (suc (suc (suc (suc zero))))))) h = refl
value_of_digit-digit (suc (suc (suc (suc (suc (suc (suc (suc zero)))))))) h = refl
value_of_digit-digit (suc (suc (suc (suc (suc (suc (suc (suc (suc zero))))))))) h = refl
value_of_digit-digit (suc (suc (suc (suc (suc (suc (suc (suc (suc (suc d)))))))))) h =
    absurd (omega (arith, h))

digit-count : (d : ℕ) → d < 10 → count (digit d) ≡ 1
unfolding digit
digit-count zero h = refl
digit-count (suc zero) h = refl
digit-count (suc (suc zero)) h = refl
digit-count (suc (suc (suc zero))) h = refl
digit-count (suc (suc (suc (suc zero)))) h = refl
digit-count (suc (suc (suc (suc (suc zero))))) h = refl
digit-count (suc (suc (suc (suc (suc (suc zero)))))) h = refl
digit-count (suc (suc (suc (suc (suc (suc (suc zero))))))) h = refl
digit-count (suc (suc (suc (suc (suc (suc (suc (suc zero)))))))) h = refl
digit-count (suc (suc (suc (suc (suc (suc (suc (suc (suc zero))))))))) h = refl
digit-count (suc (suc (suc (suc (suc (suc (suc (suc (suc (suc d)))))))))) h =
    absurd (omega (arith, h))

digit_injective : (a b : ℕ) → a < 10 → b < 10 → digit a ≡ digit b → a ≡ b
digit_injective a b h k e =
    sym (value_of_digit-digit a h) ∙ ap value_of_digit e ∙ value_of_digit-digit b k

-- A numeral of one digit, and one of more.
data Numeral (f n : ℕ) : Type 0 where
  one_digit : n < 10 → decimal_from (suc f) n ≡ digit n → Numeral f n
  more_digits :
      10 ≤ n → decimal_from (suc f) n ≡ decimal_from f (n / 10) ++ digit (n % 10) → Numeral f n

digits_of : (f n : ℕ) → Numeral f n
unfolding decimal_from
digits_of f n = elim (Bool-cases (ltb n 10)) [
  | inl small ↦ one_digit (ground (arith, small)) (rw small refl)
  | inr large ↦ more_digits (ground (arith, large)) (rw large refl)
]

decimal_from-count : (f n : ℕ) → n < f → 1 ≤ count (decimal_from f n)
decimal_from-count zero n h = absurd (omega (arith, h))
decimal_from-count (suc f) n h = elim (digits_of f n) [
  | one_digit small e ↦ rw e (omega (arith, digit-count n small))
  | more_digits large e ↦ rw e (
      omega (
        arith,
        length-append (decimal_from f (n / 10)) (digit (n % 10)),
        digit-count (n % 10) (omega arith),
      ))
]

more_digits-count :
    (f n : ℕ) → 10 ≤ n → n < suc f → 2 ≤ count (decimal_from f (n / 10) ++ digit (n % 10))
more_digits-count f n large h = omega (
  arith,
  length-append (decimal_from f (n / 10)) (digit (n % 10)),
  digit-count (n % 10) (omega arith),
  decimal_from-count f (n / 10) (omega (arith, large, h)),
)

last_digit :
    (s t : String) (a b : ℕ) → a < 10 → b < 10 → (s ++ digit a) ≡ (t ++ digit b) → (s ≡ t) × (a ≡ b)
last_digit s t a b h k e =
    let same_count : count s ≡ count t = omega (
      arith,
      ap count e,
      length-append s (digit a),
      length-append t (digit b),
      digit-count a h,
      digit-count b k,
    ) in
    let (p, q) = append_inj e same_count in (p, digit_injective a b h k q)

decimal_from_injective : (f g a b : ℕ) → a < f → b < g → decimal_from f a ≡ decimal_from g b → a ≡ b
decimal_from_injective zero g a b h k e = absurd (omega (arith, h))
decimal_from_injective (suc f) zero a b h k e = absurd (omega (arith, k))
decimal_from_injective (suc f) (suc g) a b h k e =
    go (decimal_from_injective f g (a / 10) (b / 10)) (digits_of f a) (digits_of g b)
  where
    go :
        (a / 10 < f
          → b / 10 < g
          → decimal_from f (a / 10) ≡ decimal_from g (b / 10)
          → a / 10 ≡ b / 10)
        → Numeral f a
        → Numeral g b
        → a ≡ b
    go shorter (one_digit p d) (one_digit q d') = digit_injective a b p q (sym d ∙ e ∙ d')
    go shorter (one_digit p d) (more_digits q d') =
        absurd
          (omega (arith, digit-count a p, more_digits-count g b q k, ap count (sym d ∙ e ∙ d')))
    go shorter (more_digits p d) (one_digit q d') =
        absurd
          (omega (arith, digit-count b q, more_digits-count f a p h, ap count (sym d ∙ e ∙ d')))
    go shorter (more_digits p d) (more_digits q d') =
        let (s, r) =
          last_digit (decimal_from f (a / 10)) (decimal_from g (b / 10)) (a % 10) (b % 10)
            (omega arith) (omega arith) (sym d ∙ e ∙ d') in
        let rest = shorter (omega (arith, p, h)) (omega (arith, q, k)) s in omega (arith, rest, r)

pub decimal_injective : (a b : ℕ) → decimal a ≡ decimal b → a ≡ b
unfolding decimal
decimal_injective a b e = decimal_from_injective (suc a) (suc b) a b (omega arith) (omega arith) e
