-- ===== src/Json/Closing.antt =====
-- The end of a serializer.
use jorb.Base.{◌≡◌, refl, Bool, true, false, List}
use jorb.Job.{Job}
use jorb.Run.{Run}
use jorb.Json.{Codec}
use jorb.Json.Covers.{DistinctJobs}
use jorb.Json.Disk.{Store, gets, modify, touch, ◌on_error◌, ◌>>=◌}
use jorb.Json.Store.{close_append}
use jorb.Json.Start.{close_last, checkpoint_sync, close_serializer}
use jorb.Json.Rules.{Post, bind_rule, post_map, on_error_rule, touch_rule}
use jorb.Json.Durable.{Sound}
use jorb.Json.Checkpoint.{Safe, Closing, Safe-Stable}
use jorb.Json.Rotation.{checkpoint-Sound, close_append_rule, closed-Closing}

module _ {Line OC C : Type 0} (codec : Codec Line C) (w : Run OC C) (all : List (Job C))
    (distinct : DistinctJobs all) where
  close_last_rule :
      (b : Bool) (s : Store Line OC C)
      → s.append_file ≡ b
      → Sound codec w all w s
      → Post (Safe codec w all distinct) (close_last b s) (λ u t. Closing codec w all distinct w t)
  close_last_rule false s e h = (h, e)
  close_last_rule true s e h =
      bind_rule (Safe codec w all distinct)
        (◌on_error◌ touch (modify (λ s. record s { append_file = false })))
        (λ u. modify (λ s. record s { append_file = false })) s (λ u t. Safe codec w all distinct t)
        (λ u t. Closing codec w all distinct w t)
        (on_error_rule (Safe codec w all distinct) touch
          (modify (λ s. record s { append_file = false })) s (Safe codec w all distinct)
          (Safe codec w all distinct)
          (touch_rule (Safe codec w all distinct) (Safe codec w all distinct)
            (Safe-Stable codec w all distinct) s h)
          (λ t x. x) (λ t x. (closed-Closing codec w all distinct t x).0))
        λ u t x. closed-Closing codec w all distinct t x

  -- `Close` keeps a sound store sound, whatever fails; when it works, the handle of the log is closed.
  pub close_serializer-Sound :
      (s : Store Line OC C)
      → Sound codec w all w s
      → Post
          (Sound codec w all w)
          (close_serializer s)
          (λ u t. Sound codec w all w t × (t.append_file ≡ false))
  unfolding close_serializer
  close_serializer-Sound s h =
      bind_rule (Safe codec w all distinct)
        (◌on_error◌ checkpoint_sync (gets (λ s. s.append_file) >>= close_append)) _ s
        (λ u t. Safe codec w all distinct t) _
        (on_error_rule (Safe codec w all distinct) checkpoint_sync
          (gets (λ s. s.append_file) >>= close_append) s (Safe codec w all distinct)
          (Safe codec w all distinct)
          (post_map (Safe codec w all distinct) (checkpoint_sync s)
            (λ u t. Safe codec w all distinct t × (t.append_file ≡ true))
            (λ u t. Safe codec w all distinct t) (checkpoint-Sound codec w all distinct s h)
            λ u t x. x.0)
          (λ t x. x)
          λ t x.
            post_map (Safe codec w all distinct) (close_append t.append_file t)
              (λ u v. Closing codec w all distinct w v) (λ u v. Safe codec w all distinct v)
              (close_append_rule codec w all distinct t t.append_file refl x) λ u v y. y.0)
        λ u t x. close_last_rule t.append_file t refl x
