-- ===== src/Util/Watch.antt =====
-- `RunWithFD` of util/run.go while the command runs: the function waits for the process, and a
-- goroutine beside it stops the process when the context is cancelled.
pub mod Laws
use bitcoinx.Base.{Bool, true, false, List, [], ◌∷◌, ◌++◌, ◌≡◌}

pub data Signal : Type 0 where
  sigterm sigkill : Signal

-- The goroutine in its outer select, in the inner one, and returned.
pub data Phase : Type 0 where
  watching terminating finished : Phase

-- `wait_done` is the closed channel, which follows the end of the process; `timer_fired` tells
-- whether five seconds have passed since the signal; `signals` are those sent so far.
pub record State : Type 0 where
  pub phase : Phase
  pub cancelled : Bool
  pub wait_done : Bool
  pub timer_fired : Bool
  pub signals : List Signal

unfoldable pub started : State
started = record {
  phase = watching;
  cancelled = false;
  wait_done = false;
  timer_fired = false;
  signals = [];
}

-- What can happen: the environment cancels the context, the process ends, the timer fires, and the
-- goroutine takes a case of a select that is ready, whichever it is.
pub data Step (s t : State) : Type 0 where
  cancel : t ≡ record s { cancelled = true } → Step s t
  process_exits : t ≡ record s { wait_done = true } → Step s t
  timer_fires : s.phase ≡ terminating → t ≡ record s { timer_fired = true } → Step s t
  see_cancelled :
      s.phase ≡ watching
      → s.cancelled ≡ true
      → t ≡ record s { phase = terminating; signals = s.signals ++ sigterm ∷ [] }
      → Step s t
  see_done : s.phase ≡ watching → s.wait_done ≡ true → t ≡ record s { phase = finished } → Step s t
  see_timer :
      s.phase ≡ terminating
      → s.timer_fired ≡ true
      → t ≡ record s { phase = finished; signals = s.signals ++ sigkill ∷ [] }
      → Step s t
  see_done_late :
      s.phase ≡ terminating → s.wait_done ≡ true → t ≡ record s { phase = finished } → Step s t

pub data Reach (s : State) : State → Type 0 where
  here : Reach s s
  next : {t u : State} → Reach s t → Step t u → Reach s u
