-- ===== src/Node/Stop/Laws.antt =====
-- What `Stop` promises, and when it cannot keep it.
use bitcoinx.Base.{true, ◌≡◌, ◌⊎◌, arith}
use bitcoinx.Node.Stop.{
  running, closed, reading, waiting_on_nil, waiting, panicked, stopped, State, initial, Step, Reach,
  here, next,
}
use bitcoinx.Node.Stop.{
  set_cancel, make_channel, finish, call_nil, call_cancel, find_nil, find_running, find_closed,
  receive,
}

record Inv (s : State) : Type 0 where
  reads_after : s.stop ≡ reading → s.cancelled ≡ true
  stopped_after : s.stop ≡ stopped → (s.start ≡ closed) × (s.cancelled ≡ true)
  waits_after : s.stop ≡ waiting → ((s.start ≡ running) ⊎ (s.start ≡ closed)) × (s.cancelled ≡ true)

initial-Inv : Inv initial
unfolding initial
initial-Inv = ground arith

Step-Inv : {s t : State} → Step s t → Inv s → Inv t
Step-Inv (set_cancel p e) v = ground arith
Step-Inv (make_channel p e) v = ground arith
Step-Inv (finish p e) v = ground arith
Step-Inv (call_nil p q e) v = ground arith
Step-Inv (call_cancel p q e) v = ground arith
Step-Inv (find_nil p q e) v = ground arith
Step-Inv (find_running p q e) v = ground arith
Step-Inv (find_closed p q e) v = ground arith
Step-Inv (receive p q e) v = ground arith

Reach-Inv : {s : State} → Reach initial s → Inv s
Reach-Inv here = initial-Inv
Reach-Inv (next r st) = Step-Inv st (Reach-Inv r)

-- When `Stop` has returned, `Start` has returned before, and the context was cancelled.
pub Reach-stopped :
    {s : State} → Reach initial s → s.stop ≡ stopped → (s.start ≡ closed) × (s.cancelled ≡ true)
Reach-stopped h e = (Reach-Inv h).stopped_after e

-- The states from which `Stop` cannot return any more.
abbrev pub IsLost : State → Type 0
IsLost s = (s.stop ≡ panicked) ⊎ (s.stop ≡ waiting_on_nil)
