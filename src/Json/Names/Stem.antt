-- ===== src/Json/Names/Stem.antt =====
-- json_serializer.go, `incrementalStemPaths`: the names of the logs that stand beside a checkpoint, whose
-- own name is `base`. The directory is the checkpoint's.
use mathlib.Core.List.{append_cancel_right}
use jorb.Base.{
  ℕ, ◌≡◌, refl, ap, ◌∙◌, sym, ◌↔◌, false, Option, none, some, List, [], ◌∷◌, ◌++◌, All, eqb,
  if◌then◌else◌,
}

-- What stands before the last dot: `strings.TrimSuffix(base, filepath.Ext(base))`, if there is a dot.
unfoldable pub without_ext : List ℕ → Option (List ℕ)
without_ext [] = none
without_ext (c ∷ cs) = elim (without_ext cs) [
  | some s ↦ some (c ∷ s)
  | none ↦ if eqb c b'.' then some [] else none
]

abbrev or_whole : Option (List ℕ) → List ℕ → List ℕ
or_whole none base = base
or_whole (some s) base = s

unfoldable pub incremental_stem : List ℕ → List ℕ
unfolding without_ext
incremental_stem base = or_whole (without_ext base) base

-- ".incremental.jsonl"
abbrev pub active_suffix : List ℕ
active_suffix =
    b'.' ∷ b'i' ∷ b'n' ∷ b'c' ∷ b'r' ∷ b'e' ∷ b'm' ∷ b'e' ∷ b'n' ∷ b't' ∷ b'a' ∷ b'l' ∷ b'.' ∷ b'j'
    ∷ b's' ∷ b'o' ∷ b'n' ∷ b'l' ∷ []

-- The name of the active log.
unfoldable pub append_name : List ℕ → List ℕ
unfolding incremental_stem
append_name base = incremental_stem base ++ active_suffix

abbrev pub HasNoDot : List ℕ → Type 0
HasNoDot s = All (λ c. eqb c b'.' ≡ false) s

without_ext-none : (ext : List ℕ) → HasNoDot ext → without_ext ext ≡ none
unfolding without_ext
without_ext-none [] h = refl
without_ext-none (c ∷ cs) h = rw (without_ext-none cs h.1) (rw h.0 refl)

without_ext-some : (stem ext : List ℕ) → HasNoDot ext → without_ext (stem ++ b'.' ∷ ext) ≡ some stem
unfolding without_ext
without_ext-some [] ext h = rw (without_ext-none ext h) refl
without_ext-some (c ∷ stem) ext h = rw (without_ext-some stem ext h) refl

incremental_stem-ext :
    (stem ext : List ℕ) → HasNoDot ext → incremental_stem (stem ++ b'.' ∷ ext) ≡ stem
unfolding incremental_stem
incremental_stem-ext stem ext h =
    ap (λ o. or_whole o (stem ++ b'.' ∷ ext)) (without_ext-some stem ext h)

-- The checkpoints `s.e` and `t.f`, where `e` and `f` have no dot, have the same active log exactly when
-- `s` and `t` are the same, whatever `e` and `f` are.
pub append_name-shared_iff :
    (s e t f : List ℕ)
    → HasNoDot e
    → HasNoDot f
    → (append_name (s ++ b'.' ∷ e) ≡ append_name (t ++ b'.' ∷ f)) ↔ (s ≡ t)
unfolding append_name
append_name-shared_iff s e t f h k = (
  λ p. sym a ∙ append_cancel_right _ _ active_suffix p ∙ b,
  λ p. ap (λ x. x ++ active_suffix) (a ∙ p ∙ sym b),
)
  where
    a : incremental_stem (s ++ b'.' ∷ e) ≡ s
    a = incremental_stem-ext s e h

    b : incremental_stem (t ++ b'.' ∷ f) ≡ t
    b = incremental_stem-ext t f k
