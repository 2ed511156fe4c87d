-- ===== src/Run.antt =====
-- run.go: a batch of jobs, keyed by their ids. The clock, the random bytes of new ids and the deep
-- equality of job contexts are arguments.
pub mod Equal
pub mod Adding
use Prim.Native.Nat.{◌*◌, ◌+◌}
use jorb.Base.{
  ℕ, zero, suc, ◌/◌, ◌%◌, ◌≡◌, String, ◌==◌, Bool, true, false, not, ◌&&◌, Option, none, some, List,
  [], ◌∷◌, ℤ, pos, sub_ℕ, ltb_ℤ, Dict, lookup, insert, all_of, length, eqb, if◌then◌else◌,
}
use jorb.Base.Decimal.{concat, hex_digit}
use jorb.Job.{Job, Time, millisecond, update_last_event}

pub record Run (OC C : Type 0) : Type 0 where
  pub name : String
  pub jobs : Dict (Job C)
  pub overall : OC

abbrev pub trigger_state_new : String
trigger_state_new = "new"

-- `fmt.Sprintf("%08x", n)`: the last `k` hexadecimal digits of `n`; an id has 8.
unfoldable pub hex : ℕ → ℕ → String
unfolding hex_digit
hex zero n = ""
hex (suc k) n = concat (hex k (n / 16)) (hex_digit (n % 16))

-- The four bytes that `rand.Read` gives, or the time if it fails.
pub data Draw : Type 0 where
  bytes : ℕ → ℕ → ℕ → ℕ → Draw
  failed : ℕ → Draw

unfoldable pub generate_job_id : Draw → String
unfolding hex
generate_job_id (bytes a b c d) =
    hex 8 ((a % 256) * 16_777_216 + (b % 256) * 65_536 + (c % 256) * 256 + d % 256)
generate_job_id (failed nanoseconds) = hex 8 (nanoseconds % 4_294_967_296)

-- The loop over new ids: the first draw whose id no job has. `none` means that the draws ran out.
unfoldable pub fresh_id : {C : Type 0} → Dict (Job C) → List Draw → Option String
fresh_id jobs [] = none
fresh_id jobs (d ∷ ds) =
    let rest = fresh_id jobs ds in
    elim (lookup (generate_job_id d) jobs) [ none ↦ some (generate_job_id d) | some j ↦ rest ]

module _ {OC C : Type 0} where
  -- The stamped copy is dropped: `UpdateLastEvent` has a value receiver, and nothing is written back.
  unfoldable pub init : Time → Run OC C → Run OC C
  init now r = r

  unfoldable pub new_run : Time → String → OC → Run OC C
  unfolding init
  new_run now name oc = init now (record { name = name; jobs = []; overall = oc })

  unfoldable pub update_job : Time → Run OC C → Job C → Run OC C
  unfolding update_last_event
  update_job now r j = record r { jobs = insert j.id (update_last_event now j) r.jobs }

  unfoldable pub add_job_with_state : Time → List Draw → Run OC C → C → String → Option (Run OC C)
  unfolding fresh_id update_last_event
  add_job_with_state now draws r c state = elim (fresh_id r.jobs draws) [
    | none ↦ none
    | some id ↦
        let job : Job C = record {
          id = id;
          c = c;
          state = state;
          state_errors = some [];
          last_update = none;
        } in
        some (record r { jobs = insert id (update_last_event now job) r.jobs })
  ]

  unfoldable pub add_job : Time → List Draw → Run OC C → C → Option (Run OC C)
  unfolding add_job_with_state
  add_job now draws r c = add_job_with_state now draws r c trigger_state_new

-- The stamps are both missing, or both there and at most a millisecond apart.
unfoldable pub same_stamp : Option Time → Option Time → Bool
same_stamp none none = true
same_stamp none (some t) = false
same_stamp (some s) none = false
same_stamp (some s) (some t) =
    let diff = sub_ℕ s t in
    if ltb_ℤ (pos 0) diff
    then not (ltb_ℤ (pos millisecond) diff)
    else not (ltb_ℤ diff (negative millisecond))
  where
    negative : ℕ → ℤ
    negative n = sub_ℕ 0 n

-- `reflect.DeepEqual` on two lists of messages.
unfoldable pub same_messages : List String → List String → Bool
same_messages [] [] = true
same_messages (x ∷ xs) (y ∷ ys) = x == y && same_messages xs ys
same_messages _ _ = false

abbrev pub same_entry : Option (List String) → List String → Bool
same_entry none es = false
same_entry (some es') es = same_messages es es'

-- `reflect.DeepEqual` on two maps of errors: nil equals only nil.
unfoldable pub same_errors : Option (Dict (List String)) → Option (Dict (List String)) → Bool
unfolding same_messages
same_errors none none = true
same_errors (some m) (some m') =
    eqb (length m) (length m') && all_of (λ (k, es). same_entry (lookup k m') es) m
same_errors _ _ = false

module _ {C : Type 0} (deep_equal : C → C → Bool) where
  -- the body of the loop, once the other run's job is found
  unfoldable pub same_job : Job C → Job C → Bool
  unfolding same_errors same_stamp
  same_job j j' =
      j.id == j'.id
      && (deep_equal j.c j'.c
          && (j.state == j'.state
              && (same_errors j.state_errors j'.state_errors
                  && same_stamp j.last_update j'.last_update)))

  abbrev pub matches : Option (Job C) → Job C → Bool
  matches none j = false
  matches (some j') j = same_job j j'

module _ {OC C : Type 0} (deep_equal : C → C → Bool) where
  unfoldable pub equal : Run OC C → Run OC C → Bool
  unfolding same_job
  equal r r' =
      r.name == r'.name
      && (eqb (length r.jobs) (length r'.jobs)
          && all_of (λ (k, j). matches deep_equal (lookup k r'.jobs) j) r.jobs)
