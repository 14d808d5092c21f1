-- ===== src/Node/Serve/Wait.antt =====
-- `wait` of node/server.go, which is called on a server whose `start` has succeeded. It receives
-- from the channel on which the goroutine of `start` sends how the container has ended; that channel
-- is closed then, and a closed channel gives nil.
pub mod Laws
use bitcoinx.Base.{Option, none, some, Result, ok, ◌≡◌}
use bitcoinx.Node.Serve
use bitcoinx.Node.Serve.{ended, sending}

-- `result` is what `wait` has returned.
pub record State : Type 0 where
  pub serve : Serve.State
  pub result : Option (Result (Unit {0}))

unfoldable pub started : State
started = record { serve = Serve.started; result = none }

pub data Step (s t : State) : Type 0 where
  start_moves : (u : Serve.State) → Serve.Step s.serve u → t ≡ record s { serve = u } → Step s t
  wait_receives :
      (r : Result (Unit {0}))
      → s.serve.returned ≡ some (ok tt)
      → s.result ≡ none
      → s.serve.server ≡ sending r
      → t ≡ record s { serve = record s.serve { server = ended }; result = some r }
      → Step s t
  wait_finds_closed :
      s.serve.returned ≡ some (ok tt)
      → s.result ≡ none
      → s.serve.server ≡ ended
      → t ≡ record s { result = some (ok tt) }
      → Step s t

pub data Reach (s : State) : State → Type 0 where
  here : Reach s s
  next : {t u : State} → Reach s t → Step t u → Reach s u
