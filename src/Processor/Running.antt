-- ===== src/Processor/Running.antt =====
-- processor.go, the loop of `process` among its workers: the passes of the loop follow the steps of the
-- goroutines.
use jorb.Base.{
  ℕ, ◌≡◌, refl, sym, subst, String, Bool, true, false, Option, none, some, List, [], ◌∷◌, lookup,
  insert, All, All-map, if◌then◌else◌,
}
use jorb.Channel.{Channel}
use jorb.Effect.{Result, ok, blocked, panic, Returns, Returns-bind, Returns-map}
use jorb.Job.{Job, Time}
use jorb.Storage.{Storage}
use jorb.Storage.Invariant.{SameStates}
use jorb.Storage.Status.{counts_of, get_status_counts}
use jorb.Processor.{Serializer, Main, Return, handle_return}
use jorb.Processor.Invariant.{
  IsRegistered, IsRegistered-SameStates, NeverFails, SameStates-refl, SameStates-trans,
}
use jorb.Processor.Process.{Timed, take_from, take_all, after_takes, drain, round, process_loop}
use jorb.Processor.System.{System, Reach}
use jorb.Processor.Safety.{SystemOk, handle-SystemOk, Reach-SystemOk}

Returns-self :
    {A : Type 0} (P : A → Type 0) (r : Result A) → Returns r P → Returns r (λ a. P a × (r ≡ ok a))
Returns-self P (ok a) h = (h, refl)
Returns-self P blocked h = absurd h
Returns-self P (panic p) h = absurd h

-- Every name that a listener is told of is that of a state.
abbrev pub NamesOk : {E L C : Type 0} → Storage E L C → Type 0
NamesOk s = All (IsRegistered s) s.sorted_state_names

NamesOk-SameStates : {E L C : Type 0} (s t : Storage E L C) → SameStates s t → NamesOk s → NamesOk t
NamesOk-SameStates s t same h =
    subst (All (IsRegistered t)) (sym same.names)
      (All-map _ _ s.sorted_state_names (λ k. IsRegistered-SameStates k same) h)

module _ {E L C : Type 0} where
  take_from-SameStates :
      (k : String) (o : Option (Channel (Job C))) (s : Storage E L C)
      → SameStates s (take_from k o s)
  take_from-SameStates k none s = SameStates-refl s
  take_from-SameStates k (some ch) s = go ch.buf
    where
      go :
          (b : List (Job C))
          → SameStates s (elim b [
            | [] ↦ s
            | j ∷ rest ↦ record s { state_chan = insert k (record ch { buf = rest }) s.state_chan }
          ])
      go [] = SameStates-refl s
      go (j ∷ rest) = record { states = refl; state_map = refl; names = refl }

  take_all-SameStates : (ks : List String) (s : Storage E L C) → SameStates s (take_all ks s)
  unfolding take_all
  take_all-SameStates [] s = SameStates-refl s
  take_all-SameStates (k ∷ ks) s =
      SameStates-trans (take_from-SameStates k (lookup k s.state_chan) s) (take_all-SameStates ks _)

module _ {E L W OC C : Type 0} (serializer : Serializer W C) where
  -- Before each return that is handled, workers move: they have taken the jobs that the script says, and
  -- the return is the first that waits. `K` holds of the system in the end.
  abbrev pub Follows : (System E L W OC C → Type 0) → System E L W OC C → List (Timed C) → Type 0
  Follows K y [] = K y
  Follows K y ((taken, now, r) ∷ rs) =
      (z : System E L W OC C) × (rest : List (Return C)) × Reach serializer y z
      × (z.main ≡ after_takes serializer taken y.main)
      × (z.returning ≡ r ∷ rest)
      × ((m : Main E L W OC C) (changed : Bool)
          → handle_return serializer now z.main r ≡ ok (m, changed)
          → Follows K (record z { main = m; returning = rest }) rs)

  abbrev pub Passes : System E L W OC C → List (Timed C × List (Timed C)) → Type 0
  Passes y [] = Unit
  Passes y ((first, extras) ∷ passes) = Follows (λ z. Passes z passes) y (first ∷ extras)

  module _ (never : NeverFails serializer) where
    -- A system in order whose main goroutine is in state `m`.
    abbrev pub Ends : (System E L W OC C → Type 0) → Main E L W OC C → Type 0
    Ends K m = (z : System E L W OC C) × SystemOk z × NamesOk m.storage × (z.main ≡ m) × K z

    handled :
        (K : System E L W OC C → Type 0) (y : System E L W OC C) (taken : List String)
        (now : ℕ → Time) (r : Return C) (rs : List (Timed C))
        → SystemOk y
        → NamesOk y.main.storage
        → Follows K y ((taken, now, r) ∷ rs)
        → Returns
            (handle_return serializer now (after_takes serializer taken y.main) r)
            (λ (m, changed). Ends (λ z. Follows K z rs) m)
    handled K y taken now r rs h names (z, rest, path, same, e, next) =
        subst
          (λ m.
            Returns (handle_return serializer now m r)
              (λ (m, changed). Ends (λ z. Follows K z rs) m))
          same
          (Returns-map _ _ (handle_return serializer now z.main r)
            (Returns-self _ _ (
              handle-SystemOk serializer now z r rest never e
                (Reach-SystemOk serializer y z never path h)))
            λ (m, changed) ((good, kept), done). (
              record z { main = m; returning = rest },
              good,
              NamesOk-SameStates z.main.storage m.storage kept (
                  subst (λ m. NamesOk m.storage) (sym same)
                    (NamesOk-SameStates y.main.storage (take_all taken y.main.storage)
                      (take_all-SameStates taken y.main.storage) names)),
              refl,
              next m changed done,
            ))

    drain-Ends :
        (K : System E L W OC C → Type 0) (m : Main E L W OC C) (needs : Bool) (rs : List (Timed C))
        → Ends (λ y. Follows K y rs) m
        → Returns (drain serializer m needs rs) (λ (t, b). Ends K t)
    unfolding drain
    drain-Ends K m needs [] e = e
    drain-Ends K m needs ((taken, now, r) ∷ rs) (y, h, names, same, follows) =
        Returns-bind _ _ (handle_return serializer now (after_takes serializer taken m) r) _
          (subst
            (λ i.
              Returns (handle_return serializer now (after_takes serializer taken i) r)
                (λ (t, changed). Ends (λ z. Follows K z rs) t))
            same
            (handled K y taken now r rs h (subst (λ i. NamesOk i.storage) (sym same) names)
              follows))
          λ (t, changed) e. drain-Ends K t (if changed then true else needs) rs e

    counts_of-Returns :
        (y : System E L W OC C) (names : List String)
        → SystemOk y
        → All (IsRegistered y.main.storage) names
        → Returns (counts_of y.main.storage.state_status_map names) (λ counts. Unit)
    unfolding counts_of
    counts_of-Returns y [] h a = tt
    counts_of-Returns y (k ∷ ks) h ((c, e), a) =
        let (l, has, good) = h.lanes.lanes k c e in
        rw has.status (
          Returns-bind _ _ (counts_of y.main.storage.state_status_map ks) _
            (counts_of-Returns y ks h a) λ rest u. tt)

    round-Ends :
        (K : System E L W OC C → Type 0) (m : Main E L W OC C) (first : Timed C)
        (extras : List (Timed C))
        → Ends (λ y. Follows K y (first ∷ extras)) m
        → Returns (round serializer m first extras) (λ (t, update, ended). Ends K t)
    unfolding round get_status_counts
    round-Ends K m (taken, now, r) extras (y, h, names, same, follows) =
        Returns-bind _ _ (handle_return serializer now (after_takes serializer taken m) r) _
          (subst
            (λ i.
              Returns (handle_return serializer now (after_takes serializer taken i) r)
                (λ (t, changed). Ends (λ z. Follows K z extras) t))
            same
            (handled K y taken now r extras h (subst (λ i. NamesOk i.storage) (sym same) names)
              follows))
          λ (t, changed) e.
            Returns-bind _ _ (drain serializer t changed extras) _ (drain-Ends K t changed extras e)
              λ (u, needs) (z, good, known, is_main, k).
                Returns-bind _ _ (get_status_counts u.storage) _
                  (subst
                    (λ i.
                      NamesOk i.storage → Returns (get_status_counts i.storage) (λ counts. Unit))
                    is_main (counts_of-Returns z z.main.storage.sorted_state_names good) known)
                  λ counts x. (z, good, known, is_main, k)

    -- From a system in order, whose listener is told of registered states only, with a serializer that
    -- does not fail: when the passes of the loop follow the steps of the workers, each a return that is
    -- the first to wait, the loop never panics nor waits on a channel, and leaves the system in order.
    pub process_loop-Ends :
        (m : Main E L W OC C) (passes : List (Timed C × List (Timed C)))
        → Ends (λ y. Passes y passes) m
        → Returns (process_loop serializer m passes) (λ (t, sent, done). Ends (λ y. Unit) t)
    unfolding process_loop
    process_loop-Ends m [] (y, h, names, same, u) = (y, h, names, same, tt)
    process_loop-Ends m ((first, extras) ∷ passes) e =
        Returns-bind _ _ (round serializer m first extras) _
          (round-Ends (λ z. Passes z passes) m first extras e)
          λ (t, update, ended) g.
            Returns-bind _ _
              (elim ended [ true ↦ ok (t, [], true) | false ↦ process_loop serializer t passes ]) _
              (rest_of t ended passes g (process_loop-Ends t passes g)) λ (u, later, done) x. x
      where
        rest_of :
            (t : Main E L W OC C) (ended : Bool) (ps : List (Timed C × List (Timed C)))
            → Ends (λ y. Passes y ps) t
            → Returns (process_loop serializer t ps) (λ (u, sent, done). Ends (λ y. Unit) u)
            → Returns
                (elim ended [ true ↦ ok (t, [], true) | false ↦ process_loop serializer t ps ])
                (λ (u, sent, done). Ends (λ y. Unit) u)
        rest_of t true ps (z, h, names, same, k) r = (z, h, names, same, tt)
        rest_of t false ps g r = r
