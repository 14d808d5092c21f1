-- ===== src/Node/Group/Server/Tests.antt =====
-- A node whose container fails while it runs.
use bitcoinx.Base.{
  [], ◌∷◌, true, false, Option, none, some, Result, ok, err, Error, external, cancelled, ◌≡◌, refl,
}
use bitcoinx.Node.Discover.{Poll, wait_ready, discover_peers, announce}
use bitcoinx.Node.Serve
use bitcoinx.Node.Serve.Wait
use bitcoinx.Node.Serve.Wait.Laws.{Reach-result, Reach-returns}
use bitcoinx.Node.Group
use bitcoinx.Node.Group.{ErrGroup}
use bitcoinx.Node.Group.Laws.{SomeFailed}
use bitcoinx.Node.Group.Server
use bitcoinx.Node.Group.Server.Laws.{Reach-stops}
use bitcoinx.Node.Group.Samples.{errgroup, errgroup-IsErrGroup, stopped_try, stopped_round}

-- The server comes up, and its container fails later.
abbrev up : Serve.State
up = record {
  server = Serve.working;
  poller = Serve.ended;
  returned = some (ok tt);
  cancelled = false;
  ready = true;
  exit = none;
}

abbrev answering : Poll
answering = record { status = ok tt; cancelled_waiting = false }

answering-Met : Serve.Met (record Serve.started { ready = true }) answering
answering-Met = record { broken_off = λ e. cc; answered = λ e. refl }

up_reached : Wait.Reach Wait.started (record { serve = up; result = none })
unfolding Wait.started Serve.started wait_ready
up_reached =
    Wait.next
      (Wait.next (Wait.next Wait.here (Wait.start_moves _ (Serve.becomes_ready refl) refl)) (
        Wait.start_moves _
          (Serve.poller_ends (answering ∷ []) (ok tt) refl (answering-Met, tt) refl refl) refl))
      (Wait.start_moves up (Serve.receive_ready (ok tt) refl refl refl) refl)

abbrev down : Serve.State
down = record up { server = Serve.sending (err (external 1)); exit = some (err (external 1)) }

down_reached : Wait.Reach Wait.started (record { serve = down; result = none })
down_reached =
    Wait.next up_reached
      (Wait.start_moves down (Serve.container_ends (err (external 1)) refl refl) refl)

abbrev waited : Wait.State
waited = record { serve = record down { server = Serve.ended }; result = some (err (external 1)) }

waited_reached : Wait.Reach Wait.started waited
waited_reached = Wait.next down_reached (Wait.wait_receives (err (external 1)) refl refl refl refl)

Reach-result_example : waited.serve.exit ≡ some (err (external 1))
Reach-result_example = Reach-result waited_reached refl

Reach-returns_example :
    (t : Wait.State) × Wait.Step (record { serve = down; result = none }) t
    × (t.result ≡ some (err (external 1)))
Reach-returns_example =
    Reach-returns (record { serve = down; result = none }) (err (external 1)) down_reached refl refl
      refl

-- The group is told that the container has failed, and its other functions are cancelled.
abbrev begun : Server.State (Option Error)
begun = record { group = Group.started errgroup; wait = record { serve = up; result = none } }

up_begins : Server.IsBegin errgroup begun
up_begins = Server.begin (record { serve = up; result = none }) up_reached refl refl

abbrev told : Server.State (Option Error)
told = record {
  group = record (Group.started errgroup) {
    server = some (err (external 1));
    group = some (external 1);
  };
  wait = waited;
}

told_reached : Server.Reach errgroup begun told
unfolding Group.started
told_reached =
    Server.next
      (Server.next
        (Server.next Server.here (
          Server.server_moves (record { serve = down; result = none })
            (Wait.start_moves down (Serve.container_ends (err (external 1)) refl refl) refl) refl
            refl))
        (Server.server_moves waited (Wait.wait_receives (err (external 1)) refl refl refl refl) refl
          refl))
      (Server.wait_ends (err (external 1)) refl refl refl)

abbrev stopped : Server.State (Option Error)
stopped = record told {
  group = record told.group {
    explorer = some (err cancelled);
    announcer = some (err cancelled);
    discoverer = some (err cancelled);
    returned = some (err (external 1));
  };
}

stopped_reached : Server.Reach errgroup begun stopped
unfolding Group.started Group.is_done discover_peers announce
stopped_reached =
    Server.next
      (Server.next
        (Server.next
          (Server.next told_reached
            (Server.group_moves _ (Group.explorer_ends (err cancelled) refl refl) refl refl refl))
          (Server.group_moves _
            (Group.announcer_ends (stopped_try ∷ []) (err cancelled) refl
              (record { before = λ _. refl; waiting = λ h. cc }, tt) refl refl)
            refl refl refl))
        (Server.group_moves _
          (Group.discoverer_ends (stopped_round ∷ []) cancelled refl
            (record { before = λ _. refl; waiting = λ h. cc }, tt) refl refl)
          refl refl refl))
      (Server.group_moves stopped.group
        (Group.wait_returns (err (external 1)) (err cancelled) (err cancelled) (err cancelled) refl
          refl refl refl refl refl)
        refl refl refl)

Reach-stops_example :
    ((x : Result (Unit {0})) × (stopped.wait.serve.exit ≡ some x) × (stopped.group.server ≡ some x))
    × ((e : Error) × (◌≡◌ {A = Result (Unit {0})} (err (external 1)) (err e))
        × SomeFailed errgroup errgroup-IsErrGroup stopped.group e)
Reach-stops_example =
    Reach-stops errgroup errgroup-IsErrGroup (err (external 1)) up_begins stopped_reached refl
