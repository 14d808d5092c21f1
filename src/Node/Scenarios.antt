-- ===== src/Node/Scenarios.antt =====
-- Runs of a node's goroutines, and the theorems on its start at concrete inputs.
use bitcoinx.Base.{
  [], ◌∷◌, true, false, Option, none, some, ok, err, Error, external, cancelled, ◌≡◌, refl,
}
use bitcoinx.Node.Discover.{discover_peers, announce}
use bitcoinx.Node.Serve
use bitcoinx.Node.Group
use bitcoinx.Node.Group.{ErrGroup}
use bitcoinx.Node.Stop
use bitcoinx.Node.Group.Samples.{errgroup, stopped_try, stopped_round}

-- The container fails before its status was fetched.
abbrev failed : Serve.State
failed = record {
  server = Serve.sending (err (external 1));
  poller = Serve.working;
  returned = none;
  cancelled = false;
  ready = false;
  exit = some (err (external 1));
}

abbrev reported : Serve.State
reported = record failed { server = Serve.ended; returned = some (err (external 1)) }

-- The explorer fails, and the other goroutines end after it.
abbrev explorer_failed : Group.State (Option Error)
explorer_failed = record {
  group = some (external 2);
  server = none;
  explorer = some (err (external 2));
  announcer = none;
  discoverer = none;
  parent_cancelled = false;
  returned = none;
}

explorer_failed_reached : Group.Reach errgroup (Group.started errgroup) explorer_failed
unfolding Group.started
explorer_failed_reached = Group.next Group.here (Group.explorer_ends (err (external 2)) refl refl)

abbrev all_ended : Group.State (Option Error)
all_ended = record {
  group = some (external 2);
  server = some (ok tt);
  explorer = some (err (external 2));
  announcer = some (err cancelled);
  discoverer = some (err cancelled);
  parent_cancelled = false;
  returned = some (err (external 2));
}

all_ended_reached : Group.Reach errgroup (Group.started errgroup) all_ended
unfolding Group.is_done discover_peers announce
all_ended_reached =
    Group.next
      (Group.next
        (Group.next
          (Group.next explorer_failed_reached (
            Group.announcer_ends (stopped_try ∷ []) (err cancelled) refl
              (record { before = λ _. refl; waiting = λ h. cc }, tt) refl refl))
          (Group.discoverer_ends (stopped_round ∷ []) cancelled refl
            (record { before = λ _. refl; waiting = λ h. cc }, tt) refl refl))
        (Group.server_ends (ok tt) refl refl))
      (Group.wait_returns (ok tt) (err (external 2)) (err cancelled) (err cancelled) refl refl refl
        refl refl refl)

explorer_failed_done : Group.is_done errgroup explorer_failed ≡ true
unfolding Group.is_done
explorer_failed_done = refl

-- A node that is stopped while it runs.
abbrev node_stopped : Stop.State
node_stopped = record { start = Stop.closed; stop = Stop.stopped; cancelled = true }

node_stopped_reached : Stop.Reach Stop.initial node_stopped
unfolding Stop.initial
node_stopped_reached =
    Stop.next
      (Stop.next
        (Stop.next
          (Stop.next
            (Stop.next (Stop.next Stop.here (Stop.set_cancel refl refl))
              (Stop.make_channel refl refl))
            (Stop.call_cancel refl (λ h. cc) refl))
          (Stop.find_running refl refl refl))
        (Stop.finish refl refl))
      (Stop.receive refl refl refl)

-- A node whose channel is read before it is made.
abbrev node_lost : Stop.State
node_lost = record { start = Stop.cancellable; stop = Stop.waiting_on_nil; cancelled = true }
