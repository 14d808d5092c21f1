-- ===== src/Util/Run.antt =====
-- `RunWithFD` of util/run.go as a whole: the start of the process, the goroutine of the module
-- `Watch` beside the wait for the process, and the return.
pub mod Laws
use bitcoinx.Base.{Option, none, some, Result, ok, err, Error, ◌≡◌, true}
use bitcoinx.Util.Watch

-- The function before `cmd.Start`, in `cmd.Wait`, behind it with the result of the process, and
-- returned.
pub data Main : Type 0 where
  starting waiting : Main
  waited returned : Result (Unit {0}) → Main

-- `exit` is how the process has ended, and `watcher` the goroutine, once it was started.
pub record State : Type 0 where
  pub main : Main
  pub exit : Option (Result (Unit {0}))
  pub watcher : Option Watch.State

unfoldable pub initial : State
initial = record { main = starting; exit = none; watcher = none }

-- `close_done` is the close of the channel with the return behind it. The goroutine moves by the
-- steps of `Watch`, but for the one that is this close.
pub data Step (s t : State) : Type 0 where
  start_fails :
      (e : Error) → s.main ≡ starting → t ≡ record s { main = returned (err e) } → Step s t
  starts :
      s.main ≡ starting → t ≡ record s { main = waiting; watcher = some Watch.started } → Step s t
  process_exits :
      (r : Result (Unit {0}))
      → s.main ≡ waiting
      → s.exit ≡ none
      → t ≡ record s { exit = some r }
      → Step s t
  wait_returns :
      (r : Result (Unit {0}))
      → s.main ≡ waiting
      → s.exit ≡ some r
      → t ≡ record s { main = waited r }
      → Step s t
  close_done :
      (r : Result (Unit {0})) (w : Watch.State)
      → s.main ≡ waited r
      → s.watcher ≡ some w
      → t ≡ record s { main = returned r; watcher = some (record w { wait_done = true }) }
      → Step s t
  watcher_moves :
      (w w' : Watch.State)
      → s.watcher ≡ some w
      → Watch.Step w w'
      → w'.wait_done ≡ w.wait_done
      → t ≡ record s { watcher = some w' }
      → Step s t

pub data Reach (s : State) : State → Type 0 where
  here : Reach s s
  next : {t u : State} → Reach s t → Step t u → Reach s u
