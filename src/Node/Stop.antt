-- ===== src/Node/Stop.antt =====
-- `Stop` and the frame of `Start` in node/node.go. A command runs `Start` in a goroutine, and calls
-- `Stop` when a signal arrives, at whatever point `Start` is.
pub mod Laws
use bitcoinx.Base.{Bool, true, false, ◌≡◌, ◌≢◌}

-- `Start` has not been run, has set the cancel function, has made the channel `doneCh`, and has
-- closed it on its return.
pub data StartPoint : Type 0 where
  unstarted cancellable running closed : StartPoint

-- `Stop` has not been called, has called the cancel function and is about to read `doneCh`, waits on
-- the nil channel that it found there, waits on the channel, has called a nil function, and has
-- returned.
pub data StopPoint : Type 0 where
  uncalled reading waiting_on_nil waiting panicked stopped : StopPoint

pub record State : Type 0 where
  pub start : StartPoint
  pub stop : StopPoint
  pub cancelled : Bool

unfoldable pub initial : State
initial = record { start = unstarted; stop = uncalled; cancelled = false }

-- `set_cancel`, `make_channel` and `finish` are steps of `Start`, the others of `Stop`.
pub data Step (s t : State) : Type 0 where
  set_cancel : s.start ≡ unstarted → t ≡ record s { start = cancellable } → Step s t
  make_channel : s.start ≡ cancellable → t ≡ record s { start = running } → Step s t
  finish : s.start ≡ running → t ≡ record s { start = closed } → Step s t
  call_nil : s.stop ≡ uncalled → s.start ≡ unstarted → t ≡ record s { stop = panicked } → Step s t
  call_cancel :
      s.stop ≡ uncalled
      → s.start ≢ unstarted
      → t ≡ record s { stop = reading; cancelled = true }
      → Step s t
  find_nil :
      s.stop ≡ reading → s.start ≡ cancellable → t ≡ record s { stop = waiting_on_nil } → Step s t
  find_running : s.stop ≡ reading → s.start ≡ running → t ≡ record s { stop = waiting } → Step s t
  find_closed : s.stop ≡ reading → s.start ≡ closed → t ≡ record s { stop = waiting } → Step s t
  receive : s.stop ≡ waiting → s.start ≡ closed → t ≡ record s { stop = stopped } → Step s t

pub data Reach (s : State) : State → Type 0 where
  here : Reach s s
  next : {t u : State} → Reach s t → Step t u → Reach s u
