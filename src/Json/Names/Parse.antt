-- ===== src/Json/Names/Parse.antt =====
-- What `parseSealedSeq` reads in the name of a sealed segment.
use mathlib.Core.List.{append_assoc}
use jorb.Base.{
  ℕ, zero, suc, ◌+◌, ◌-◌, ◌*◌, ◌/◌, ◌%◌, ◌^◌, ◌≡◌, ◌≤◌, ◌<◌, refl, sym, ap, ◌∙◌, Bool, true, false,
  some, List, [], ◌∷◌, ◌++◌, All, All-append, Bool-cases, inl, inr, length-append, length, ltb, eqb,
  if◌then◌else◌, arith,
}
use jorb.Json.Names.{
  sealed_mark, inc, extension, digits_from, zeros, padded, sealed_incremental_name, is_prefix,
  contains, drop, after_first, before_dot, is_digit, parse_from, parse_uint, parse_number,
  parse_rest, parse_sealed_seq,
}

-- The digits that follow are read after those before them.
parse_from-append :
    (limit acc d : ℕ) (xs : List ℕ) (v : ℕ)
    → parse_from limit acc xs ≡ some v
    → d < 10
    → v * 10 + d < limit
    → parse_from limit acc (xs ++ (b'0' + d) ∷ []) ≡ some (v * 10 + d)
unfolding parse_from is_digit
parse_from-append limit acc d [] v e small below = let same : acc ≡ v = cc in ground (arith, same)
parse_from-append limit acc d (x ∷ xs) v e small below =
    ground (arith, e, parse_from-append limit (acc * 10 + (x - b'0')) d xs v)

parse_from-zeros :
    (limit k : ℕ) (xs : List ℕ)
    → 0 < limit
    → parse_from limit 0 (zeros k ++ xs) ≡ parse_from limit 0 xs
unfolding parse_from is_digit zeros
parse_from-zeros limit zero xs h = refl
parse_from-zeros limit (suc k) xs h = ground (arith, parse_from-zeros limit k xs h)

one_digit :
    (limit n : ℕ) → ltb n 10 ≡ true → n < limit → parse_from limit 0 ((b'0' + n) ∷ []) ≡ some n
unfolding parse_from is_digit
one_digit limit n small below = ground (arith, small)

parse_from-digits_from :
    (limit f n : ℕ) → n < f → n < limit → parse_from limit 0 (digits_from f n) ≡ some n
unfolding digits_from
parse_from-digits_from limit zero n h below = absurd (omega (arith, h))
parse_from-digits_from limit (suc f) n h below = elim (Bool-cases (ltb n 10)) [
  | inl small ↦ rw small (one_digit limit n small below)
  | inr large ↦
      let big : 10 ≤ n = ground (arith, large) in
      rw large (
        parse_from-append limit 0 (n % 10) (digits_from f (n / 10)) (n / 10)
          (parse_from-digits_from limit f (n / 10) (omega (arith, big, h))
            (omega (arith, big, below)))
          (omega arith) (omega (arith, below))
        ∙ ap some (omega arith))
]

-- The digits are not dots.
zeros-NoDot : (k : ℕ) → All (λ c. eqb c b'.' ≡ false) (zeros k)
unfolding zeros
zeros-NoDot zero = tt
zeros-NoDot (suc k) = (refl, zeros-NoDot k)

digits_from-NoDot : (f n : ℕ) → All (λ c. eqb c b'.' ≡ false) (digits_from f n)
unfolding digits_from
digits_from-NoDot zero n = tt
digits_from-NoDot (suc f) n = elim (Bool-cases (ltb n 10)) [
  | inl small ↦ rw small (ground arith, tt)
  | inr large ↦ rw large (
      All-append _ (digits_from f (n / 10)) ((b'0' + n % 10) ∷ []) (digits_from-NoDot f (n / 10))
        (ground arith, tt))
]

padded-NoDot : (n : ℕ) → All (λ c. eqb c b'.' ≡ false) (padded n)
unfolding padded
padded-NoDot n =
    let ds : List ℕ = digits_from (suc n) n in
    All-append _ (zeros (6 - length ds)) ds (zeros-NoDot (6 - length ds))
      (digits_from-NoDot (suc n) n)

before_dot-append :
    (xs ys : List ℕ) → All (λ c. eqb c b'.' ≡ false) xs → before_dot (xs ++ b'.' ∷ ys) ≡ some xs
unfolding before_dot
before_dot-append [] ys a = refl
before_dot-append (x ∷ xs) ys a = rw a.0 (rw (before_dot-append xs ys a.1) refl)

is_prefix-append :
    (p xs ys : List ℕ) → length p ≤ length xs → is_prefix p (xs ++ ys) ≡ is_prefix p xs
unfolding is_prefix
is_prefix-append [] xs ys h = refl
is_prefix-append (c ∷ p) [] ys h = absurd (omega (arith, h))
is_prefix-append (c ∷ p) (x ∷ xs) ys h = rw (is_prefix-append p xs ys (omega (arith, h))) refl

prefix_of_mark :
    (c : ℕ) (stem rest : List ℕ)
    → is_prefix inc (c ∷ (stem ++ (inc ++ rest))) ≡ is_prefix inc (c ∷ (stem ++ sealed_mark))
prefix_of_mark c stem rest =
    ap (λ s. is_prefix inc (c ∷ s)) (sym (append_assoc stem sealed_mark (b'.' ∷ rest)))
    ∙ is_prefix-append inc (c ∷ (stem ++ sealed_mark)) (b'.' ∷ rest)
        (omega (arith, length-append stem sealed_mark))

absent : (a b : Bool) → (if a then true else b) ≡ false → (a ≡ false) × (b ≡ false)
absent true b e = cc
absent false b e = (refl, e)

-- The first mark of the name stands behind the stem, if none begins in the stem.
after_first-inc :
    (stem rest : List ℕ)
    → contains inc (stem ++ sealed_mark) ≡ false
    → after_first inc (stem ++ (inc ++ rest)) ≡ some rest
unfolding after_first contains drop
after_first-inc [] rest free = refl
after_first-inc (c ∷ stem) rest free =
    let (here, later) =
      absent (is_prefix inc (c ∷ (stem ++ sealed_mark))) (contains inc (stem ++ sealed_mark))
        free in
    rw (prefix_of_mark c stem rest) (rw here (after_first-inc stem rest later))

digits_from-length : (f n : ℕ) → 1 ≤ length (digits_from (suc f) n)
unfolding digits_from
digits_from-length f n = elim (Bool-cases (ltb n 10)) [
  | inl small ↦ rw small (omega arith)
  | inr large ↦
      rw large (omega (arith, length-append (digits_from f (n / 10)) ((b'0' + n % 10) ∷ [])))
]

parse_uint-not_empty :
    (limit : ℕ) (s : List ℕ) → 1 ≤ length s → parse_uint limit s ≡ parse_from limit 0 s
unfolding parse_uint
parse_uint-not_empty limit [] h = absurd (omega (arith, h))
parse_uint-not_empty limit (c ∷ s) h = refl

parse_uint-padded : (limit n : ℕ) → n < limit → parse_uint limit (padded n) ≡ some n
unfolding padded
parse_uint-padded limit n below =
    let ds : List ℕ = digits_from (suc n) n in
    let k : ℕ = 6 - length ds in
    parse_uint-not_empty limit (zeros k ++ ds)
      (omega (arith, length-append (zeros k) ds, digits_from-length n n))
    ∙ parse_from-zeros limit k ds (omega (arith, below))
    ∙ parse_from-digits_from limit (suc n) n (omega arith) below

-- For a stem in which no mark of a segment's name begins, and a number of 64 bits, `parseSealedSeq`
-- reads in the name of a sealed segment the number that it was made for.
pub parse_sealed_seq-sealed_incremental_name :
    (stem : List ℕ) (seq : ℕ)
    → contains inc (stem ++ sealed_mark) ≡ false
    → seq < 2 ^ 64
    → parse_sealed_seq (sealed_incremental_name stem seq) ≡ some seq
unfolding parse_sealed_seq sealed_incremental_name
parse_sealed_seq-sealed_incremental_name stem seq free below =
    ap parse_rest (after_first-inc stem (padded seq ++ extension) free)
    ∙ ap parse_number
        (before_dot-append (padded seq) (b'j' ∷ b's' ∷ b'o' ∷ b'n' ∷ b'l' ∷ []) (padded-NoDot seq))
    ∙ parse_uint-padded (2 ^ 64) seq below
