-- ===== src/Run/Equal.antt =====
-- When two runs are equal.
use mathlib.Core.Option.{some-injective}
use jorb.Base.{
  All-of_all_of, ℕ, ◌+◌, ◌≤◌, ◌≡◌, refl, ap, sym, subst, ◌↔◌, inl, inr, String, ◌==◌, eq_iff,
  eq_refl, Bool, true, Option, none, some, List, [], ◌∷◌, Dict, lookup, length, eqb, All, All-map,
  All-map_two, all_of, arith, Distinct, String-cases, ◌&&◌,
}
use jorb.Job.{Job, Time, millisecond}
use jorb.Job.Errors.{ErrorsDistinct}
use jorb.Run.{Run, same_stamp, same_messages, same_errors, same_entry, same_job, matches, equal}

-- In a map with distinct keys every entry is what a lookup of its key finds.
entries_found : {V : Type 0} (m : Dict V) → Distinct m → All (λ (k, v). lookup k m ≡ some v) m
unfolding lookup
entries_found [] h = tt
entries_found {V} ((k, v) ∷ m) h =
    (rw (eq_refl k), All-map _ _ m (λ (j, w) e. later j w e) (entries_found m h.1))
  where
    later : (j : String) (w : V) → lookup j m ≡ some w → lookup j ((k, v) ∷ m) ≡ some w
    later j w e = elim (String-cases k j) [
      | inl same ↦ cc (h.0, e, ap (λ i. lookup i m) same)
      | inr ne ↦ rw ne e
    ]

all_of-All :
    {A : Type 0} (p : A → Bool) (xs : List A) → All (λ x. p x ≡ true) xs → all_of p xs ≡ true
all_of-All p [] h = refl
all_of-All p (x ∷ xs) h = rw h.0 (all_of-All p xs h.1)

and_true : (a b : Bool) → (a && b) ≡ true → (a ≡ true) × (b ≡ true)
and_true a b h = ground arith

true_and : (a b : Bool) → a ≡ true → b ≡ true → (a && b) ≡ true
true_and a b h k = ground arith

eqb_refl : (n : ℕ) → eqb n n ≡ true
eqb_refl n = ground arith

same_messages_refl : (xs : List String) → same_messages xs xs ≡ true
unfolding same_messages
same_messages_refl [] = refl
same_messages_refl (x ∷ xs) = rw (eq_refl x) (same_messages_refl xs)

same_messages-eq : (xs ys : List String) → same_messages xs ys ≡ true → xs ≡ ys
unfolding same_messages
same_messages-eq [] [] h = refl
same_messages-eq [] (y ∷ ys) h = cc
same_messages-eq (x ∷ xs) [] h = cc
same_messages-eq (x ∷ xs) (y ∷ ys) h =
    let (a, b) = and_true (x == y) (same_messages xs ys) h in
    cc ((eq_iff x y).0 a, same_messages-eq xs ys b)

-- The maps are both missing, or both there, of one size, and each entry of the first is in the second.
abbrev pub ErrorsAgree : Option (Dict (List String)) → Option (Dict (List String)) → Type 0
ErrorsAgree none none = Unit
ErrorsAgree (some m) (some m') = (length m ≡ length m') × All (λ (k, es). lookup k m' ≡ some es) m
ErrorsAgree _ _ = ⊥

same_entry-found :
    (o : Option (List String)) (es : List String) → same_entry o es ≡ true → o ≡ some es
same_entry-found none es h = cc
same_entry-found (some es') es h = ap some (sym (same_messages-eq es es' h))

same_errors-ErrorsAgree :
    (m m' : Option (Dict (List String))) → (same_errors m m' ≡ true) ↔ ErrorsAgree m m'
unfolding same_errors
same_errors-ErrorsAgree none none = (λ h. tt, λ a. refl)
same_errors-ErrorsAgree none (some m') = (λ h. cc, λ a. absurd a)
same_errors-ErrorsAgree (some m) none = (λ h. cc, λ a. absurd a)
same_errors-ErrorsAgree (some m) (some m') = (
  λ h.
      let (a, b) = and_true (eqb (length m) (length m')) _ h in
      (
        ground arith,
        All-of_all_of _ (λ (k, es). same_entry (lookup k m') es) m
            (λ (k, es) e. same_entry-found (lookup k m') es e) b,
      ),
  λ (a, b). true_and (eqb (length m) (length m')) _ (ground arith) (
      all_of-All (λ (k, es). same_entry (lookup k m') es) m
        (All-map _ _ m (λ (k, es) e. rw e (same_messages_refl es)) b)),
)

same_errors_refl : (m : Option (Dict (List String))) → ErrorsDistinct m → same_errors m m ≡ true
unfolding same_errors
same_errors_refl none h = refl
same_errors_refl (some m) h = true_and (eqb (length m) (length m)) _ (eqb_refl (length m)) (
    all_of-All (λ (k, es). same_entry (lookup k m) es) m
      (All-map _ _ m (λ (k, es) e. rw e (same_messages_refl es)) (entries_found m h)))

same_stamp_refl : (t : Option Time) → same_stamp t t ≡ true
unfolding same_stamp
same_stamp_refl t = ground arith

-- The stamps are both missing, or both there and a millisecond apart at most.
abbrev pub StampsClose : Option Time → Option Time → Type 0
StampsClose none none = Unit
StampsClose (some s) (some t) = (s ≤ t + millisecond) × (t ≤ s + millisecond)
StampsClose _ _ = ⊥

same_stamp-StampsClose : (s t : Option Time) → (same_stamp s t ≡ true) ↔ StampsClose s t
unfolding same_stamp
same_stamp-StampsClose none none = (λ h. tt, λ a. refl)
same_stamp-StampsClose none (some t) = (λ h. cc, λ a. absurd a)
same_stamp-StampsClose (some s) none = (λ h. cc, λ a. absurd a)
same_stamp-StampsClose (some s) (some t) = (λ h. ground arith, λ a. ground (arith, a.0, a.1))

module _ {C : Type 0} (deep_equal : C → C → Bool) where
  same_job_refl :
      (j : Job C)
      → ((c : C) → deep_equal c c ≡ true)
      → ErrorsDistinct j.state_errors
      → same_job deep_equal j j ≡ true
  unfolding same_job
  same_job_refl j deep h =
      rw (eq_refl j.id, deep j.c, eq_refl j.state, same_errors_refl j.state_errors h)
        (same_stamp_refl j.last_update)

  abbrev pub Counterpart : Job C → Job C → Type 0
  Counterpart j j' =
      (j.id ≡ j'.id)
      × (j.state ≡ j'.state)
      × (deep_equal j.c j'.c ≡ true)
      × ErrorsAgree j.state_errors j'.state_errors
      × StampsClose j.last_update j'.last_update

  same_job-Counterpart : (j j' : Job C) → (same_job deep_equal j j' ≡ true) ↔ Counterpart j j'
  unfolding same_job
  same_job-Counterpart j j' = (
    λ h.
        let (a, b) = and_true (j.id == j'.id) _ h in
        let (c, d) = and_true (deep_equal j.c j'.c) _ b in
        let (e, f) = and_true (j.state == j'.state) _ d in
        let (g, i) = and_true (same_errors j.state_errors j'.state_errors) _ f in
        (
          (eq_iff j.id j'.id).0 a,
          (eq_iff j.state j'.state).0 e,
          c,
          (same_errors-ErrorsAgree j.state_errors j'.state_errors).0 g,
          (same_stamp-StampsClose j.last_update j'.last_update).0 i,
        ),
    λ (a, b, c, d, e).
        rw
          (
            (eq_iff j.id j'.id).1 a,
            c,
            (eq_iff j.state j'.state).1 b,
            (same_errors-ErrorsAgree j.state_errors j'.state_errors).1 d,
          )
          ((same_stamp-StampsClose j.last_update j'.last_update).1 e),
  )

  matches-Counterpart :
      (o : Option (Job C)) (j : Job C)
      → (matches deep_equal o j ≡ true) ↔ ((j' : Job C) × (o ≡ some j') × Counterpart j j')
  matches-Counterpart none j = (λ h. cc, λ (j', e, c). cc)
  matches-Counterpart (some j') j = (
    λ h. (j', refl, (same_job-Counterpart j j').0 h),
    λ (i, e, c).
        (same_job-Counterpart j j').1 (subst (Counterpart j) (sym (some-injective _ _ e)) c),
  )

module _ {OC C : Type 0} (deep_equal : C → C → Bool) where
  -- Every run equals itself, if deep equality of contexts is reflexive and no key stands twice in a
  -- map.
  equal_refl :
      (r : Run OC C)
      → ((c : C) → deep_equal c c ≡ true)
      → Distinct r.jobs
      → All (λ (k, j). ErrorsDistinct j.state_errors) r.jobs
      → equal deep_equal r r ≡ true
  unfolding equal
  equal_refl r deep distinct errors = true_and (r.name == r.name) _ (eq_refl r.name) (
      true_and (eqb (length r.jobs) (length r.jobs)) _ (eqb_refl (length r.jobs)) (
        all_of-All (λ (k, j). matches deep_equal (lookup k r.jobs) j) r.jobs
          (All-map_two _ _ _ r.jobs (λ (k, j) e d. rw e (same_job_refl deep_equal j deep d))
            (entries_found r.jobs distinct) errors)))

  -- Two runs are equal just when they have the same name and as many jobs, and each job of the first
  -- has its counterpart in the second under the same key: with the same id and state, a context that is
  -- deeply equal, the same error messages under the same states or no map of errors on either side, and
  -- a stamp at most a millisecond away or none on either side.
  pub equal_iff :
      (r r' : Run OC C)
      → (equal deep_equal r r' ≡ true) ↔ (
          (r.name ≡ r'.name)
          × (length r.jobs ≡ length r'.jobs)
          × All
              (λ (k, j). (j' : Job C) × (lookup k r'.jobs ≡ some j') × Counterpart deep_equal j j')
              r.jobs)
  unfolding equal
  equal_iff r r' = (
    λ h.
        let (a, b) = and_true (r.name == r'.name) _ h in
        let (c, d) = and_true (eqb (length r.jobs) (length r'.jobs)) _ b in
        (
          (eq_iff r.name r'.name).0 a,
          ground arith,
          All-of_all_of _ (λ (k, j). matches deep_equal (lookup k r'.jobs) j) r.jobs
              (λ (k, j) e. (matches-Counterpart deep_equal (lookup k r'.jobs) j).0 e) d,
        ),
    λ (a, b, c). true_and (r.name == r'.name) _ ((eq_iff r.name r'.name).1 a) (
        true_and (eqb (length r.jobs) (length r'.jobs)) _ (ground arith) (
          all_of-All (λ (k, j). matches deep_equal (lookup k r'.jobs) j) r.jobs
            (All-map _ _ r.jobs
              (λ (k, j) e. (matches-Counterpart deep_equal (lookup k r'.jobs) j).1 e) c))),
  )
