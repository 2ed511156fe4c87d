-- ===== src/Processor/Admission.antt =====
-- processor.go, the start of `process`: what it does with the jobs of a run.
use mathlib.Core.Option.{some-injective}
use jorb.Base.{
  ℕ, ◌≡◌, refl, sym, subst, ap, ◌∙◌, inl, inr, String, ◌==◌, String-cases, eq_iff, [], ◌∷◌, Dict,
  All, All-map, if◌then◌else◌,
}
use jorb.Effect.{Returns, Returns-bind, Returns-map}
use jorb.Job.{Job}
use jorb.Storage.{Storage, process_job}
use jorb.Storage.Lane.{Lane, HasLane, admit, Moves}
use jorb.Storage.Refine.{process_job-Moves}
use jorb.Storage.Invariant.{Inv, SameStates, room_to_run, Moves-Inv, Moves-SameStates, admit-LaneOk}
use jorb.Processor.Process.{start_jobs}
use jorb.Processor.Invariant.{
  IsRegistered, IsRegistered-SameStates, SameStates-refl, SameStates-trans,
}

module _ {E L C : Type 0} where
  -- The lane of `k` after the jobs of the run, of which those in state `k` are admitted to it, in order.
  abbrev pub admit_all : String → Dict (Job C) → Lane E L C → Lane E L C
  admit_all k [] l = l
  admit_all k ((id, j) ∷ jobs) l = admit_all k jobs (if j.state == k then admit l j else l)

  same_Lane :
      (s : Storage E L C) (k : String) (l m : Lane E L C) → HasLane s k l → HasLane s k m → l ≡ m
  same_Lane s k l m h g =
      let config = some-injective _ _ (sym h.config ∙ g.config) in
      let status = some-injective _ _ (sym h.status ∙ g.status) in
      let chan = some-injective _ _ (sym h.chan ∙ g.chan) in
      let queue = sym h.queue ∙ g.queue in
      λ i. record { config = config i; status = status i; chan = chan i; queue = queue i }

  moved :
      (s t : Storage E L C) (k : String) (l m : Lane E L C) (j : Job C)
      → HasLane s j.state l
      → Moves s j.state (admit l j) t
      → HasLane s k m
      → HasLane t k (if j.state == k then admit m j else m)
  moved s t k l m j has mv h = elim (String-cases j.state k) [
    | inl same ↦ rw ((eq_iff j.state k).1 same) (
        subst (HasLane t k)
          (ap (λ n. admit n j) (same_Lane s k l m (subst (λ i. HasLane s i l) same has) h))
          (subst (λ i. HasLane t i (admit l j)) same mv.here))
    | inr ne ↦ rw ne (mv.others k m ne h)
  ]

  admitted :
      (n : String → ℕ) (s : Storage E L C) (j : Job C) (k : String) (m : Lane E L C)
      → IsRegistered s j.state
      → Inv n s
      → HasLane s k m
      → Returns
          (process_job s j)
          (λ t. Inv n t × SameStates s t × HasLane t k (if j.state == k then admit m j else m))
  admitted n s j k m (c, e) h lane =
      let (l, has, good) = h.lanes j.state c e in
      Returns-map _ _ (process_job s j)
        (process_job-Moves s j l has good.is_open (room_to_run j.state _ l good))
        λ t mv. (
          Moves-Inv n n s t j.state _ mv (admit-LaneOk j.state (n j.state) l j refl good)
              (λ i ne. refl) h,
          Moves-SameStates mv,
          moved s t k l m j has mv lane,
        )

  -- When the states of all jobs of a run are registered, the start of `process` returns, without a
  -- panic and without waiting. It has admitted every job, in order, and nothing else: the lane of any
  -- state is what `admit` makes of it with the jobs of that state. Every lane is in order.
  pub start_jobs-Inv :
      (n : String → ℕ) (s : Storage E L C) (jobs : Dict (Job C)) (k : String) (l : Lane E L C)
      → All (λ (id, j). IsRegistered s j.state) jobs
      → Inv n s
      → HasLane s k l
      → Returns
          (start_jobs s jobs)
          (λ t. Inv n t × SameStates s t × HasLane t k (admit_all k jobs l))
  unfolding start_jobs
  start_jobs-Inv n s [] k l a h lane = (h, SameStates-refl s, lane)
  start_jobs-Inv n s ((id, j) ∷ jobs) k l a h lane =
      Returns-bind _ _ (process_job s j) _ (admitted n s j k l a.0 h lane) λ t (inv, same, here).
        Returns-map _ _ (start_jobs t jobs)
          (start_jobs-Inv n t jobs k _
            (All-map _ _ jobs (λ (id', i). IsRegistered-SameStates i.state same) a.1) inv here)
          λ u (inv', same', there). (inv', SameStates-trans same same', there)
