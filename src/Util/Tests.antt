-- ===== src/Util/Tests.antt =====
-- A command that is cancelled and does not stop, and one that does.
use bitcoinx.Base.{[], ◌∷◌, true, false, none, some, err, external, refl, ◌⊎◌}
use bitcoinx.Util.Watch
use bitcoinx.Util.Run
use bitcoinx.Util.Run.Laws.{Returned, Reach-Returned}
use bitcoinx.Util.Watch.{
  sigterm, sigkill, finished, State, started, cancel, see_cancelled, timer_fires, see_timer, Reach,
  here, next,
}
use bitcoinx.Util.Watch.Laws.{Quiet, Asked, Killed, Reach-signals}

abbrev killed : State
killed = record {
  phase = finished;
  cancelled = true;
  wait_done = false;
  timer_fired = true;
  signals = sigterm ∷ sigkill ∷ [];
}

killed_reached : Reach started killed
unfolding started
killed_reached =
    next
      (next (next (next here (cancel refl)) (see_cancelled refl refl refl)) (timer_fires refl refl))
      (see_timer refl refl refl)

Reach-signals_example : Quiet killed ⊎ (Asked killed ⊎ Killed killed)
Reach-signals_example = Reach-signals killed_reached

-- The process ends with an error after it was asked to stop.
abbrev stopping : Watch.State
stopping = record {
  phase = Watch.terminating;
  cancelled = true;
  wait_done = false;
  timer_fired = false;
  signals = sigterm ∷ [];
}

abbrev ended : Run.State
ended = record {
  main = Run.returned (err (external 1));
  exit = some (err (external 1));
  watcher = some (record stopping { wait_done = true });
}

cancelled_run : Run.Reach Run.initial (record {
  main = Run.waiting;
  exit = none;
  watcher = some (record Watch.started { cancelled = true });
})
unfolding Run.initial Watch.started
cancelled_run =
    Run.next (Run.next Run.here (Run.starts refl refl))
      (Run.watcher_moves Watch.started _ refl (Watch.cancel refl) refl refl)

ended_reached : Run.Reach Run.initial ended
unfolding Watch.started
ended_reached =
    Run.next
      (Run.next
        (Run.next
          (Run.next cancelled_run
            (Run.watcher_moves _ stopping refl (Watch.see_cancelled refl refl refl) refl refl))
          (Run.process_exits (err (external 1)) refl refl refl))
        (Run.wait_returns (err (external 1)) refl refl refl))
      (Run.close_done (err (external 1)) stopping refl refl refl)

Reach-Returned_example : Returned ended (err (external 1))
Reach-Returned_example = Reach-Returned (err (external 1)) ended_reached refl
