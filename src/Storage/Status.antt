-- ===== src/Storage/Status.antt =====
-- processor.go, the questions that the main goroutine asks of the storage: whether all jobs are
-- terminal, whether any executes, and the counts that a status listener is sent.
use jorb.Base.{
  ◌≡◌, String, Bool, false, some, List, [], ◌∷◌, pos, ltb_ℤ, Dict, lookup, all_of, any_of, arith,
}
use jorb.Effect.{Result, ok, ◌>>=◌}
use jorb.Run.{Run}
use jorb.State.{StatusCount}
use jorb.Storage.{Storage, deref, is_terminal}

unfoldable pub counts_of : Dict StatusCount → List String → Result (List StatusCount)
counts_of m [] = ok []
counts_of m (name ∷ names) = do sc ← deref (lookup name m); rest ← counts_of m names; ok (sc ∷ rest)

module _ {E L OC C : Type 0} where
  unfoldable pub all_jobs_are_terminal : Storage E L C → Run OC C → Bool
  all_jobs_are_terminal s r = all_of (λ (id, job). is_terminal s job) r.jobs

module _ {E L C : Type 0} where
  unfoldable pub has_executing_jobs : Storage E L C → Bool
  has_executing_jobs s = any_of (λ (k, count). ltb_ℤ (pos 0) count.executing) s.state_status_map

  unfoldable pub get_status_counts : Storage E L C → Result (List StatusCount)
  unfolding counts_of
  get_status_counts s = counts_of s.state_status_map s.sorted_state_names

any_of-lookup :
    (p : StatusCount → Bool) (m : Dict StatusCount) (k : String) (sc : StatusCount)
    → any_of (λ (j, c). p c) m ≡ false
    → lookup k m ≡ some sc
    → p sc ≡ false
unfolding lookup
any_of-lookup p [] k sc h e = cc
any_of-lookup p ((j, c) ∷ m) k sc h e = ground (arith, any_of-lookup p m k sc)

-- When no count is positive, no state has a job that executes.
pub has_executing_jobs-none :
    {E L C : Type 0} (s : Storage E L C) (k : String) (sc : StatusCount)
    → has_executing_jobs s ≡ false
    → lookup k s.state_status_map ≡ some sc
    → ltb_ℤ (pos 0) sc.executing ≡ false
unfolding has_executing_jobs
has_executing_jobs-none s k sc h e =
    any_of-lookup (λ c. ltb_ℤ (pos 0) c.executing) s.state_status_map k sc h e
