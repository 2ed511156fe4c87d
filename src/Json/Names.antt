-- ===== src/Json/Names.antt =====
-- json_serializer.go, the names of sealed segments, as lists of bytes: `sealedIncrementalPath`, and
-- `parseSealedSeq`, which reads the number back.
pub mod Parse
pub mod Stem
pub mod Listing
use jorb.Json.Store.{sort_by_seq}
use jorb.Base.{
  ℕ, zero, suc, ◌+◌, ◌-◌, ◌*◌, ◌/◌, ◌%◌, ◌^◌, ◌≡◌, ◌≤◌, ◌<◌, refl, sym, ap, ◌∙◌, Bool, true, false,
  ◌&&◌, Option, none, some, List, [], ◌∷◌, ◌++◌, All, length, ltb, leb, eqb, if◌then◌else◌, arith,
}

-- ".incremental.sealed" and ".jsonl"
abbrev pub sealed_mark : List ℕ
sealed_mark =
    b'.' ∷ b'i' ∷ b'n' ∷ b'c' ∷ b'r' ∷ b'e' ∷ b'm' ∷ b'e' ∷ b'n' ∷ b't' ∷ b'a' ∷ b'l' ∷ b'.' ∷ b's'
    ∷ b'e' ∷ b'a' ∷ b'l' ∷ b'e' ∷ b'd' ∷ []

-- The constant `inc` of `parseSealedSeq`.
abbrev pub inc : List ℕ
inc = sealed_mark ++ b'.' ∷ []

abbrev pub extension : List ℕ
extension = b'.' ∷ b'j' ∷ b's' ∷ b'o' ∷ b'n' ∷ b'l' ∷ []

-- `fmt.Sprintf("%d", n)`. The first argument is fuel.
unfoldable pub digits_from : ℕ → ℕ → List ℕ
digits_from zero n = []
digits_from (suc f) n =
    let rest = digits_from f (n / 10) in
    if ltb n 10 then (b'0' + n) ∷ [] else rest ++ (b'0' + n % 10) ∷ []

unfoldable pub zeros : ℕ → List ℕ
zeros zero = []
zeros (suc n) = b'0' ∷ zeros n

-- `fmt.Sprintf("%06d", n)`
unfoldable pub padded : ℕ → List ℕ
unfolding digits_from zeros
padded n = let ds = digits_from (suc n) n in zeros (6 - length ds) ++ ds

-- The last element of `sealedIncrementalPath`.
unfoldable pub sealed_incremental_name : List ℕ → ℕ → List ℕ
unfolding padded
sealed_incremental_name stem seq = stem ++ (inc ++ (padded seq ++ extension))

unfoldable pub is_prefix : List ℕ → List ℕ → Bool
is_prefix [] s = true
is_prefix (p ∷ ps) [] = false
is_prefix (p ∷ ps) (c ∷ s) = eqb p c && is_prefix ps s

-- `strings.Contains(s, p)`
unfoldable pub contains : List ℕ → List ℕ → Bool
unfolding is_prefix
contains p [] = is_prefix p []
contains p (c ∷ s) = let rest = contains p s in if is_prefix p (c ∷ s) then true else rest

unfoldable pub drop : ℕ → List ℕ → List ℕ
drop zero s = s
drop (suc n) [] = []
drop (suc n) (c ∷ s) = drop n s

-- `base[strings.Index(base, p)+len(p):]`, if there is an occurrence
unfoldable pub after_first : List ℕ → List ℕ → Option (List ℕ)
unfolding is_prefix drop
after_first p [] = if is_prefix p [] then some [] else none
after_first p (c ∷ s) =
    let rest = after_first p s in
    if is_prefix p (c ∷ s) then some (drop (length p) (c ∷ s)) else rest

-- `rest[:strings.IndexByte(rest, '.')]`, if there is one
unfoldable pub before_dot : List ℕ → Option (List ℕ)
before_dot [] = none
before_dot (c ∷ s) =
    if eqb c b'.' then some [] else elim (before_dot s) [ none ↦ none | some t ↦ some (c ∷ t) ]

unfoldable pub is_digit : ℕ → Bool
is_digit c = leb b'0' c && leb c b'9'

-- The digits after those that make `acc`; a number of `limit` or more is an error.
unfoldable pub parse_from : ℕ → ℕ → List ℕ → Option ℕ
unfolding is_digit
parse_from limit acc [] = some acc
parse_from limit acc (c ∷ s) =
    let next = acc * 10 + (c - b'0') in
    let rest = parse_from limit next s in
    if is_digit c then (if ltb next limit then rest else none) else none

-- `strconv.ParseUint(s, 10, bits)`, with `limit` for `2 ^ bits`
unfoldable pub parse_uint : ℕ → List ℕ → Option ℕ
unfolding parse_from
parse_uint limit [] = none
parse_uint limit (c ∷ s) = parse_from limit 0 (c ∷ s)

abbrev pub parse_number : Option (List ℕ) → Option ℕ
parse_number none = none
parse_number (some s) = parse_uint (2 ^ 64) s

abbrev pub parse_rest : Option (List ℕ) → Option ℕ
parse_rest none = none
parse_rest (some s) = parse_number (before_dot s)

unfoldable pub parse_sealed_seq : List ℕ → Option ℕ
unfolding after_first before_dot parse_uint
parse_sealed_seq base = parse_rest (after_first inc base)

-- `listSealedSegments`, on the names that match, in any order: the numbers of the segments in the order
-- in which they are replayed. A name without a number is passed over.
abbrev pub add_number : Option ℕ → List ℕ → List ℕ
add_number none ns = ns
add_number (some n) ns = n ∷ ns

unfoldable pub numbers_of : List (List ℕ) → List ℕ
unfolding parse_sealed_seq
numbers_of [] = []
numbers_of (m ∷ ms) = add_number (parse_sealed_seq m) (numbers_of ms)

unfoldable pub list_sealed_segments : List (List ℕ) → List ℕ
unfolding numbers_of sort_by_seq
list_sealed_segments names = sort_by_seq (numbers_of names)
