-- ===== src/Cmd/Wait/Laws.antt =====
-- Why the commands end.
use bitcoinx.Base.{ℕ, List, [], ◌∷◌, Option, some, Result, ◌≡◌, ◌⊎◌}
use bitcoinx.Node.Serve.{Sender, working, ended, sending}
use bitcoinx.Node.Stop.{
  unstarted, cancellable, running, closed, uncalled, reading, waiting_on_nil, waiting, panicked,
  stopped,
}
use bitcoinx.Node.Stop
use bitcoinx.Cmd.Wait.{Line, received, Phase, selecting, stopping, finished, crashed, State, report}

-- A command has ended by what the node returned, without `Stop`, or by a signal.
abbrev pub Ends : Stop.State → Sender → Option (Result (Unit {0})) → List Line → Type 0
Ends n g result printed =
    ((r : Result (Unit {0})) × (result ≡ some r)
      × (printed ≡ report r)
      × (n.stop ≡ uncalled)
      × (g ≡ ended))
    ⊎ ((signal : ℕ) × (printed ≡ received signal ∷ []) × (n.stop ≡ stopped))

abbrev Delivers : Stop.State → Option (Result (Unit {0})) → Sender → Type 0
Delivers n result working = Unit
Delivers n result (sending r) = (n.start ≡ closed) × (result ≡ some r)
Delivers n result ended = n.start ≡ closed

abbrev InPhase : Stop.State → Sender → Option (Result (Unit {0})) → List Line → Phase → Type 0
InPhase n g result printed selecting = n.stop ≡ uncalled
InPhase n g result printed stopping = (signal : ℕ) × (printed ≡ received signal ∷ [])
InPhase n g result printed finished = (n.start ≡ closed) × Ends n g result printed
InPhase n g result printed crashed = Unit

record Inv (s : State) : Type 0 where
  delivers : Delivers s.node s.result s.sender
  phase : InPhase s.node s.sender s.result s.printed s.phase
  returned : s.node.stop ≡ stopped → s.node.start ≡ closed
