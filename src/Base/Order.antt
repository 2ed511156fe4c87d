-- ===== src/Base/Order.antt =====
-- The order in which Go compares strings, byte by byte, and `sort.Strings`. On UTF-8 it is the order
-- of the code points.
use Prim.Native.Nat.{ℕ}
use Prim.Native.Char.{code}
use Prim.Native.String.{String}
use mathlib.Core.Path.{◌≡◌, refl}
use mathlib.Core.Bool.{Bool, true, false}
use mathlib.Core.List.{List, [], ◌∷◌, Perm}
use mathlib.Core.List.Perm
use mathlib.Core.Logic.{inl, inr}
use native.Mathlib.Omega.{arith}
use jorb.Base.Tests.{ltb, if◌then◌else◌, Bool-cases}

abbrev pub codes : String → List ℕ
codes String.[] = []
codes (String.◌∷◌ c s) = code c ∷ codes s

unfoldable pub before : List ℕ → List ℕ → Bool
before [] [] = false
before [] (b ∷ bs) = true
before (a ∷ as') [] = false
before (a ∷ as') (b ∷ bs) =
    let rest = before as' bs in if ltb a b then true else if ltb b a then false else rest

before-asymmetric : (a b : List ℕ) → before a b ≡ true → before b a ≡ false
unfolding before
before-asymmetric [] [] h = cc
before-asymmetric [] (b ∷ bs) h = refl
before-asymmetric (a ∷ as') [] h = cc
before-asymmetric (a ∷ as') (b ∷ bs) h = ground (arith, before-asymmetric as' bs)

-- `s < t`
abbrev pub str_lt : String → String → Bool
str_lt s t = before (codes s) (codes t)

unfoldable pub sort_insert : String → List String → List String
sort_insert s [] = s ∷ []
sort_insert s (t ∷ ts) = if str_lt t s then t ∷ sort_insert s ts else s ∷ t ∷ ts

unfoldable pub sort_strings : List String → List String
unfolding sort_insert before
sort_strings [] = []
sort_strings (s ∷ ss) = sort_insert s (sort_strings ss)

-- No string is less than the one in front of it.
abbrev pub IsSorted : List String → Type 0
IsSorted [] = Unit
IsSorted (s ∷ []) = Unit
IsSorted (s ∷ t ∷ ts) = (str_lt t s ≡ false) × IsSorted (t ∷ ts)

sort_insert-IsSorted : (s : String) (ts : List String) → IsSorted ts → IsSorted (sort_insert s ts)
unfolding sort_insert
sort_insert-IsSorted s [] h = tt
sort_insert-IsSorted s (t ∷ []) h = ground (arith, before-asymmetric (codes t) (codes s))
sort_insert-IsSorted s (t ∷ u ∷ us) h =
    ground (arith, before-asymmetric (codes t) (codes s), sort_insert-IsSorted s (u ∷ us) h.1)

pub sort_strings-IsSorted : (ss : List String) → IsSorted (sort_strings ss)
unfolding sort_strings
sort_strings-IsSorted [] = tt
sort_strings-IsSorted (s ∷ ss) = sort_insert-IsSorted s _ (sort_strings-IsSorted ss)

sort_insert-perm : (s : String) (ts : List String) → Perm (sort_insert s ts) (s ∷ ts)
unfolding sort_insert
sort_insert-perm s [] = Perm.refl (s ∷ [])
sort_insert-perm s (t ∷ ts) = elim (Bool-cases (str_lt t s)) [
  | inl e ↦ rw e (Perm.trans (Perm.cons t (sort_insert-perm s ts)) (Perm.swap s t ts))
  | inr e ↦ rw e (Perm.refl (s ∷ t ∷ ts))
]

pub sort_strings-perm : (ss : List String) → Perm (sort_strings ss) ss
unfolding sort_strings
sort_strings-perm [] = Perm.refl []
sort_strings-perm (s ∷ ss) =
    Perm.trans (sort_insert-perm s (sort_strings ss)) (Perm.cons s (sort_strings-perm ss))
