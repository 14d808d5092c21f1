-- ===== src/Builder/Race/Laws.antt =====
-- What `Build` returns, what it logs, and what it leaves behind.
use bitcoinx.Base.{
  ◌⊎◌, Option, Text, ◌++◌, true, none, some, Result, ok, err, Error, ◌≡◌, refl, arith, ap, sym,
  subst, ◌∙◌,
}
use mathlib.Core.List.{append_assoc}
use bitcoinx.Builder.Race.{
  Pipe, Main, State, started, wrote, took, output, after_wait, Step, Reach, here, next, sending,
  received, waiting, receiving, logging, returned,
}
use bitcoinx.Builder.Race.{
  writes_out, writes_errors, exits, reads_out, reads_errors, finds_end, finds_closed, gives_up,
  wait_returns, receives, writes_log, makes_no_log, writes_front,
}

-- What was written was read, or not yet.
abbrev pub Flows : Pipe → Type 0
Flows p = p.written ≡ p.read ++ p.unread

wrote-Flows : (t : Text) (p : Pipe) → Flows p → Flows (wrote t p)
unfolding wrote
wrote-Flows t p h = ap (λ (s : Text). s ++ t) h ∙ append_assoc p.read p.unread t

took-Flows : (t rest : Text) (p : Pipe) → p.unread ≡ t ++ rest → Flows p → Flows (took t rest p)
unfolding took
took-Flows t rest p e h = h ∙ ap (λ (s : Text). p.read ++ s) e ∙ sym (append_assoc p.read t rest)

abbrev Flow : State → Type 0
Flow s = Flows s.out × Flows s.errors

started-Flow : Flow started
unfolding started
started-Flow = (refl, refl)

Step-Flow : {s t : State} → Step s t → Flow s → Flow t
Step-Flow {s} (writes_out x h e) v = subst Flow (sym e) (wrote-Flows x s.out v.0, v.1)
Step-Flow {s} (writes_errors x h e) v = subst Flow (sym e) (v.0, wrote-Flows x s.errors v.1)
Step-Flow (exits r h e) v = subst Flow (sym e) v
Step-Flow {s} (reads_out x rest p c u e) v = subst Flow (sym e) (took-Flows x rest s.out u v.0, v.1)
Step-Flow {s} (reads_errors x rest p c h o u e) v =
    subst Flow (sym e) (v.0, took-Flows x rest s.errors u v.1)
Step-Flow (finds_end p h o u e) v = subst Flow (sym e) v
Step-Flow (finds_closed p c e) v = subst Flow (sym e) v
Step-Flow (gives_up x p l e) v = subst Flow (sym e) v
Step-Flow (wait_returns r m h e) v = subst Flow (sym e) v
Step-Flow (receives m p e) v = subst Flow (sym e) v
Step-Flow (writes_log x m e) v = subst Flow (sym e) v
Step-Flow (makes_no_log x y m e) v = subst Flow (sym e) v
Step-Flow (writes_front x y front rest m o e) v = subst Flow (sym e) v

-- What the log file holds: all of the output, if `buildLog` had no error, or else a front part of it,
-- if there is a file at all.
abbrev pub Logged : Text → Option Text → Option Error → Type 0
Logged text log none = log ≡ some text
Logged text none (some x) = Unit
Logged text (some front) (some x) = (rest : Text) × (text ≡ front ++ rest)

-- What is so at each place of the function.
abbrev At : State → Main → Type 0
At s waiting = (s.log ≡ none) × (s.log_error ≡ none)
At s receiving = (s.exit ≡ some (ok tt)) × (s.closed ≡ true) × (s.log ≡ none) × (s.log_error ≡ none)
At s (logging e) =
    (s.exit ≡ some (err e)) × (s.closed ≡ true) × (s.log ≡ none) × (s.log_error ≡ none)
At s (returned (ok u)) = (s.exit ≡ some (ok tt)) × (s.parsing ≡ received) × (s.log ≡ none)
At s (returned (err e)) =
    (s.exit ≡ some (err e)) × (s.closed ≡ true) × Logged (output s) s.log s.log_error

started-At : At started (started.main)
unfolding started
started-At = (refl, refl)

Step-At : {s t : State} → Step s t → At s (s.main) → At t (t.main)
unfolding output after_wait
Step-At (writes_out x h e) v = ground arith
Step-At (writes_errors x h e) v = ground arith
Step-At (exits r h e) v = ground arith
Step-At (reads_out x rest p c u e) v = ground arith
Step-At (reads_errors x rest p c h o u e) v = ground arith
Step-At (finds_end p h o u e) v = ground arith
Step-At (finds_closed p c e) v = ground arith
Step-At (gives_up x p l e) v = ground arith
Step-At (wait_returns r m h e) v = ground arith
Step-At (receives m p e) v = ground arith
Step-At (writes_log x m e) v = ground arith
Step-At (makes_no_log x y m e) v = ground arith
Step-At {s} (writes_front x y front rest m o e) v =
    let before = subst (At s) m v in
    subst (λ (u : State). At u u.main) (sym e) (before.0, before.1, (rest, o))

Reach-Flow : {s : State} → Reach started s → Flow s
Reach-Flow here = started-Flow
Reach-Flow (next r st) = Step-Flow st (Reach-Flow r)

Reach-At : {s : State} → Reach started s → At s (s.main)
Reach-At here = started-At
Reach-At (next r st) = Step-At st (Reach-At r)

-- How the build has ended when `Build` returns: with success, behind the parser and without a log;
-- or with an error and a log of what was read, if it could be written.
abbrev pub Built : State → Result (Unit {0}) → Type 0
Built s (ok u) = (s.exit ≡ some (ok tt)) × (s.parsing ≡ received) × (s.log ≡ none)
Built s (err e) =
    (s.exit ≡ some (err e))
    × Logged (s.out.read ++ s.errors.read) s.log s.log_error
    × (s.out.written ≡ s.out.read ++ s.out.unread)
    × (s.errors.written ≡ s.errors.read ++ s.errors.unread)

-- The end of a build whose process was started.
pub Reach-Built :
    {s : State} (r : Result (Unit {0})) → Reach started s → s.main ≡ returned r → Built s r
unfolding output
Reach-Built (ok u) reach h = ground (arith, Reach-At reach, h)
Reach-Built {s} (err e) reach h =
    let (ended, _, logged) = subst (At s) h (Reach-At reach) in
    let (out, errors) = Reach-Flow reach in (ended, logged, out, errors)

-- The first of the three results that is an error.
abbrev pub FirstError : (out errors start : Result (Unit {0})) → Error → Type 0
FirstError out errors start e =
    (out ≡ err e)
    ⊎ (((out ≡ ok tt) × (errors ≡ err e)) ⊎ ((out ≡ ok tt) × (errors ≡ ok tt) × (start ≡ err e)))

-- When the process has ended with an error, `Build` can return at once, with a log that lacks all
-- that the parser has not read yet.
pub Reach-loses :
    (s : State) (e : Error)
    → Reach started s
    → s.main ≡ waiting
    → s.exit ≡ some (err e)
    → (t : State) × Reach s t
      × (t.main ≡ returned (err e))
      × (t.log ≡ some (s.out.read ++ s.errors.read))
      × (t.out.written ≡ s.out.read ++ s.out.unread)
      × (t.errors.written ≡ s.errors.read ++ s.errors.unread)
unfolding output after_wait
Reach-loses s e reach at ended = (
  record s { closed = true; main = returned (err e); log = some (output s) },
  next (next here (wait_returns (err e) at ended refl)) (writes_log e refl refl),
  refl,
  refl,
  (Reach-Flow reach).0,
  (Reach-Flow reach).1,
)

-- What stays as it is once an error was returned.
record Over (s t : State) : Type 0 where
  returned_same : t.main ≡ s.main
  log_same : t.log ≡ s.log
  blocked : s.parsing ≡ sending → t.parsing ≡ sending

Step-Over : {s t u : State} (e : Error) → s.main ≡ returned (err e) → Over s t → Step t u → Over s u
Step-Over e h v (writes_out x k d) = ground arith
Step-Over e h v (writes_errors x k d) = ground arith
Step-Over e h v (exits r k d) = ground arith
Step-Over e h v (reads_out x rest p c k d) = ground arith
Step-Over e h v (reads_errors x rest p c n o k d) = ground arith
Step-Over e h v (finds_end p n o k d) = ground arith
Step-Over e h v (finds_closed p c d) = ground arith
Step-Over e h v (gives_up x p l d) = ground arith
Step-Over e h v (wait_returns r m k d) = ground arith
Step-Over e h v (receives m p d) = ground arith
Step-Over e h v (writes_log x m d) = ground arith
Step-Over e h v (makes_no_log x y m d) = ground arith
Step-Over e h v (writes_front x y front rest m o d) = ground arith

Reach-Over : {s t : State} (e : Error) → s.main ≡ returned (err e) → Reach s t → Over s t
Reach-Over e h here = record { returned_same = refl; log_same = refl; blocked = λ k. k }
Reach-Over e h (next r st) = Step-Over e h (Reach-Over e h r) st

-- Once `Build` has returned an error, its result and its log stay as they are, and a goroutine that
-- waits to send what `Parse` has returned stays blocked for ever.
pub Reach-blocked :
    {s t : State} (e : Error)
    → Reach s t
    → s.main ≡ returned (err e)
    → s.parsing ≡ sending
    → (t.main ≡ returned (err e)) × (t.log ≡ s.log) × (t.parsing ≡ sending)
Reach-blocked e reach h blocked =
    let v = Reach-Over e h reach in (v.returned_same ∙ h, v.log_same, v.blocked blocked)
