-- ===== src/Cmd/Wait.antt =====
-- cmd/start.go and cmd/join.go: the end of both commands. A goroutine runs the node and sends what
-- its `Start` returns; the command waits for that or for a signal, upon which it stops the node.
pub mod Laws
mod Tests
use bitcoinx.Base.{ℕ, List, [], ◌∷◌, Option, none, some, Result, ok, err, Error, ◌≡◌}
use bitcoinx.Node.Serve.{Sender, working, ended, sending}
use bitcoinx.Node.Stop.{initial}
use bitcoinx.Node.Stop

-- `ui.Error` for an error of the node, and `ui.Info` for a signal.
pub data Line : Type 0 where
  failed : Error → Line
  received : ℕ → Line

pub data Phase : Type 0 where
  selecting stopping finished crashed : Phase

-- `node` is how far `Start` and `Stop` are, `sender` the goroutine, `signal` the channel of the
-- signals, which holds one, and `result` what `Start` has returned. In the phase `crashed` the program
-- has ended with a panic of `Stop`.
pub record State : Type 0 where
  pub node : Stop.State
  pub sender : Sender
  pub signal : Option ℕ
  pub phase : Phase
  pub printed : List Line
  pub result : Option (Result (Unit {0}))

unfoldable pub started : State
unfolding initial
started = record {
  node = initial;
  sender = working;
  signal = none;
  phase = selecting;
  printed = [];
  result = none;
}

-- Only an error is printed.
unfoldable pub report : Result (Unit {0}) → List Line
report (ok u) = []
report (err e) = failed e ∷ []

-- `start_moves` is a step of the node's `Start`, and `stop_moves` one of its `Stop`.
pub data Step (s t : State) : Type 0 where
  start_moves :
      (n : Stop.State)
      → Stop.Step s.node n
      → n.stop ≡ s.node.stop
      → t ≡ record s { node = n }
      → Step s t
  stop_moves :
      (n : Stop.State)
      → s.phase ≡ stopping
      → Stop.Step s.node n
      → n.start ≡ s.node.start
      → t ≡ record s { node = n }
      → Step s t
  start_returns :
      (r : Result (Unit {0}))
      → s.node.start ≡ Stop.closed
      → s.sender ≡ working
      → t ≡ record s { sender = sending r; result = some r }
      → Step s t
  signal_arrives : (signal : ℕ) → s.signal ≡ none → t ≡ record s { signal = some signal } → Step s t
  receive_error :
      (r : Result (Unit {0}))
      → s.phase ≡ selecting
      → s.sender ≡ sending r
      → t ≡ record s { sender = ended; phase = finished; printed = report r }
      → Step s t
  receive_signal :
      (signal : ℕ)
      → s.phase ≡ selecting
      → s.signal ≡ some signal
      → t ≡ record s { signal = none; phase = stopping; printed = received signal ∷ [] }
      → Step s t
  stop_returns :
      s.phase ≡ stopping → s.node.stop ≡ Stop.stopped → t ≡ record s { phase = finished } → Step s t
  stop_panics :
      s.phase ≡ stopping → s.node.stop ≡ Stop.panicked → t ≡ record s { phase = crashed } → Step s t

pub data Reach (s : State) : State → Type 0 where
  here : Reach s s
  next : {t u : State} → Reach s t → Step t u → Reach s u
