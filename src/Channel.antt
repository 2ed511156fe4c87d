-- ===== src/Channel.antt =====
-- Go's buffered channels: the capacity, what is buffered (oldest first), and whether it is closed.
use jorb.Base.{ℕ, Bool, true, false, List, [], ◌∷◌, ◌++◌, length, ltb, if◌then◌else◌}
use jorb.Effect.{Result, ok, blocked, panic, send_on_closed, close_of_closed}

pub record Channel (A : Type 0) : Type 0 where
  pub cap : ℕ
  pub buf : List A
  pub closed : Bool

module _ {A : Type 0} where
  -- `make(chan A, n)`
  unfoldable pub make_chan : ℕ → Channel A
  make_chan n = record { cap = n; buf = []; closed = false }

  -- `ch <- a`, by a sender whose receivers do not move
  unfoldable pub send : Channel A → A → Result (Channel A)
  send ch a =
      if ch.closed
      then panic send_on_closed
      else if ltb (length ch.buf) ch.cap
      then ok (record ch { buf = ch.buf ++ a ∷ [] })
      else blocked

  -- `close(ch)`
  unfoldable pub close : Channel A → Result (Channel A)
  close ch = if ch.closed then panic close_of_closed else ok (record ch { closed = true })
