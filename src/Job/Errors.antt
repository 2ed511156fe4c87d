-- ===== src/Job/Errors.antt =====
-- The copy of a job's errors holds the same messages under the same states.
use jorb.Base.{
  or_else, ◌≡◌, refl, String, eq_iff, Option, none, some, List, [], ◌∷◌, Dict, lookup, insert,
  lookup-insert, Distinct, arith,
}
use jorb.Job.{clone_state_errors_map, copy_errors}

copy_errors-lookup :
    (m out : Dict (List String)) (k : String)
    → Distinct m
    → lookup k (copy_errors m out) ≡ or_else (lookup k m) (lookup k out)
unfolding copy_errors lookup
copy_errors-lookup [] out k h = refl
copy_errors-lookup ((j, v) ∷ m) out k h =
    ground (arith, copy_errors-lookup m (insert j v out) k h.1, lookup-insert j k v out, eq_iff j k)

abbrev errors_in : Option (Dict (List String)) → String → Option (List String)
errors_in none k = none
errors_in (some m) k = lookup k m

-- The keys of the errors of a job are distinct, as those of any map.
abbrev pub ErrorsDistinct : Option (Dict (List String)) → Type 0
ErrorsDistinct none = Unit
ErrorsDistinct (some m) = Distinct m

-- When no key stands twice in the job's errors, the copy that a worker appends to finds under
-- each state what they hold there, also when the job has no map of errors.
clone_state_errors_map_lem :
    (m : Option (Dict (List String))) (k : String)
    → ErrorsDistinct m
    → lookup k (clone_state_errors_map m) ≡ errors_in m k
unfolding clone_state_errors_map lookup
clone_state_errors_map_lem none k h = refl
clone_state_errors_map_lem (some m) k h = ground (arith, copy_errors-lookup m [] k h)
