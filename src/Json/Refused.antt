-- ===== src/Json/Refused.antt =====
-- The starts that fail although no call of the operating system does.
use jorb.Base.{ℕ, suc, ◌+◌, arith, length, ap, ◌≡◌, refl, none, some, Option, List, [], ◌∷◌, false}
use jorb.Job.{Job, Time}
use jorb.Run.{Run, init, update_job}
use jorb.Json.{
  Codec, RoundTrips, record_of, malformed, line, refused, replay_jsonl_file, replay_lines,
  apply_jsonl_line,
}
use jorb.Json.Disk.{
  Content, whole, torn, failed, decode_error, replay_error, environment, syscall, stat,
}
use jorb.Json.Store.{recover_checkpoint_atomic, sort_by_seq}
use jorb.Json.Start.{
  new_json_serializer, load_checkpoint_and_replay, replay_log, replay_sealed, append_to,
}
use jorb.Json.Durable.{lines_of}
use jorb.Json.Restart.{restarted}

module _ {Line OC C : Type 0} (codec : Codec Line C) (now : ℕ → ℕ → Time) (overall : OC) where
  -- With no checkpoint and a temporary one whose write did not end, a start fails, whatever the logs
  -- hold and whether or not there is an old checkpoint.
  pub new_json_serializer_of_torn :
      (old : Option (Content OC C)) (active : Option (List Line)) (sealed : List (ℕ × List Line))
      (run : Run OC C)
      → (new_json_serializer codec now overall (
          restarted
            (record { main = none; tmp = some torn; old = old; active = active; sealed = sealed })
            run
            [])).0
        ≡ failed decode_error
  unfolding new_json_serializer recover_checkpoint_atomic load_checkpoint_and_replay environment
      syscall stat
  new_json_serializer_of_torn old active sealed run = refl

  replay_lines_of_cut :
      RoundTrips codec
      → (clock : ℕ → Time) (n : ℕ) (js : List (Job C)) (l : Line) (r : Run OC C)
      → codec.decode l ≡ none
      → codec.is_blank l ≡ false
      → replay_lines codec clock n (append_to (lines_of codec js) l) r
        ≡ refused (line (suc (n + length js)) malformed)
  unfolding replay_lines apply_jsonl_line
  replay_lines_of_cut laws clock n [] l r undecodable written = ground (arith, undecodable, written)
  replay_lines_of_cut laws clock n (j ∷ js) l r undecodable written = ground (
    arith,
    laws.written (record_of j),
    laws.decode-encode (record_of j),
    replay_lines_of_cut laws clock (suc n) js l (update_job (clock n) r j) undecodable written,
  )

  -- A log that ends in a line that cannot be decoded makes every start fail, with the number of the
  -- line, though all lines before it can be read.
  pub new_json_serializer_of_cut :
      RoundTrips codec
      → (tmp old : Option (Content OC C)) (c run : Run OC C) (js : List (Job C)) (l : Line)
      → codec.decode l ≡ none
      → codec.is_blank l ≡ false
      → (new_json_serializer codec now overall (
          restarted
            (record {
              main = some (whole c);
              tmp = tmp;
              old = old;
              active = some (append_to (lines_of codec js) l);
              sealed = [];
            })
            run
            [])).0
        ≡ failed (replay_error (line (suc (length js)) malformed))
  unfolding new_json_serializer recover_checkpoint_atomic load_checkpoint_and_replay environment
      syscall stat replay_log replay_sealed sort_by_seq replay_jsonl_file init
  new_json_serializer_of_cut laws tmp old c run js l undecodable written =
      rw (replay_lines_of_cut laws (now 0) 0 js l c undecodable written)
        (ap (λ m. failed (replay_error (line (suc m) malformed))) (omega arith))
