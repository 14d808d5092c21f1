-- ===== src/Cmd/Wait/Tests.antt =====
-- A command whose node fails.
use bitcoinx.Base.{false, none, some, [], ◌∷◌, err, external}
use bitcoinx.Node.Serve.{ended}
use bitcoinx.Node.Stop.{closed, uncalled}
use bitcoinx.Cmd.Wait.{finished, State, failed}

-- The node is started and fails, and its error is received.
abbrev ended_state : State
ended_state = record {
  node = record { start = closed; stop = uncalled; cancelled = false };
  sender = ended;
  signal = none;
  phase = finished;
  printed = failed (external 1) ∷ [];
  result = some (err (external 1));
}
