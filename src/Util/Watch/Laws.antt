-- ===== src/Util/Watch/Laws.antt =====
-- Which signals are sent, and that the goroutine always ends.
use bitcoinx.Base.{true, false, [], ◌∷◌, ◌≡◌, ◌⊎◌, inl, inr, refl, arith}
use bitcoinx.Util.Watch.{
  sigterm, sigkill, Phase, watching, terminating, finished, State, started, Step, Reach, here, next,
}
use bitcoinx.Util.Watch.{
  cancel, process_exits, timer_fires, see_cancelled, see_done, see_timer, see_done_late,
}

-- The signals that fit the state.
abbrev pub Quiet : State → Type 0
Quiet s = s.signals ≡ []

abbrev pub Asked : State → Type 0
Asked s = (s.signals ≡ sigterm ∷ []) × (s.cancelled ≡ true)

abbrev pub Killed : State → Type 0
Killed s = (s.signals ≡ sigterm ∷ sigkill ∷ []) × (s.cancelled ≡ true) × (s.timer_fired ≡ true)

record Inv (s : State) : Type 0 where
  fits : Quiet s ⊎ (Asked s ⊎ Killed s)
  quiet_before : s.phase ≡ watching → s.signals ≡ []
  asked_after : s.phase ≡ terminating → Asked s

started-Inv : Inv started
unfolding started
started-Inv = ground arith

Step-Inv : {s t : State} → Step s t → Inv s → Inv t
Step-Inv (cancel e) v = ground arith
Step-Inv (process_exits e) v = ground arith
Step-Inv (timer_fires p e) v = ground arith
Step-Inv (see_cancelled p c e) v = ground arith
Step-Inv (see_done p d e) v = ground arith
Step-Inv (see_timer p f e) v = ground arith
Step-Inv (see_done_late p d e) v = ground arith

Reach-Inv : {s : State} → Reach started s → Inv s
Reach-Inv here = started-Inv
Reach-Inv (next r st) = Step-Inv st (Reach-Inv r)

-- A command gets no signal, or SIGTERM after its context was cancelled, or SIGTERM and then SIGKILL
-- after its context was cancelled and the five seconds had passed; it gets no other.
pub Reach-signals : {s : State} → Reach started s → Quiet s ⊎ (Asked s ⊎ Killed s)
Reach-signals r = (Reach-Inv r).fits

-- A command whose context is not cancelled gets no signal.
pub Reach-not_cancelled : {s : State} → Reach started s → s.cancelled ≡ false → s.signals ≡ []
Reach-not_cancelled r h = ground (arith, Reach-signals r)

-- Once the process has ended, the goroutine has returned or can return in one step, without any
-- further signal.
pub Step-finished :
    (s : State) → s.wait_done ≡ true → (s.phase ≡ finished) ⊎ Step s (record s { phase = finished })
Step-finished s h = by_phase s.phase refl
  where
    by_phase :
        (p : Phase) → s.phase ≡ p → (s.phase ≡ finished) ⊎ Step s (record s { phase = finished })
    by_phase watching e = inr (see_done e h refl)
    by_phase terminating e = inr (see_done_late e h refl)
    by_phase finished e = inl e
