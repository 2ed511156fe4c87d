-- ===== src/Effect.antt =====
-- How a call of the program's code can end: with a value, by a panic, or waiting for ever at a
-- channel. Panics are those of the Go runtime that the code can meet; `fatal` is `log.Fatalf`.
use jorb.Base.{◌≡◌, refl}

pub data Panic : Type 0 where
  nil_dereference send_on_closed close_of_closed close_of_nil fatal nil_map_write not_implemented :
      Panic

pub data Result {ℓ} (A : Type ℓ) : Type ℓ where
  ok : A → Result A
  blocked : Result A
  panic : Panic → Result A

infixl 5 ◌>>=◌
abbrev pub ◌>>=◌ {ℓ κ} : {A : Type ℓ} {B : Type κ} → Result A → (A → Result B) → Result B
ok a >>= f = f a
blocked >>= f = blocked
panic p >>= f = panic p

-- The call ends with a value, and the value satisfies `P`.
abbrev pub Returns : {A : Type 0} → Result A → (A → Type 0) → Type 0
Returns (ok a) P = P a
Returns blocked P = ⊥
Returns (panic p) P = ⊥

-- Two steps that return, one after the other.
pub Returns-bind :
    {A B : Type 0} (P : A → Type 0) (Q : B → Type 0) (r : Result A) (f : A → Result B)
    → Returns r P
    → ((a : A) → P a → Returns (f a) Q)
    → Returns (r >>= f) Q
Returns-bind P Q (ok a) f h k = k a h
Returns-bind P Q blocked f h k = absurd h
Returns-bind P Q (panic p) f h k = absurd h

pub Returns-map :
    {A : Type 0} (P Q : A → Type 0) (r : Result A)
    → Returns r P
    → ((a : A) → P a → Q a)
    → Returns r Q
Returns-map P Q (ok a) h k = k a h
Returns-map P Q blocked h k = absurd h
Returns-map P Q (panic p) h k = absurd h

-- A chain that ends with a value has a first part that does, and a second part.
pub bind-eq-ok :
    {A B : Type 0} (r : Result A) (f : A → Result B) (b : B)
    → (r >>= f) ≡ ok b
    → (a : A) × (r ≡ ok a) × (f a ≡ ok b)
bind-eq-ok (ok a) f b e = (a, refl, e)
bind-eq-ok blocked f b e = cc
bind-eq-ok (panic p) f b e = cc
