-- ===== src/Node/Serve/Laws.antt =====
-- Why `start` of the server returns, and what it leaves behind.
use bitcoinx.Base.{
  Error, wrap, lit, true, List, [], ◌∷◌, Option, none, some, Result, ok, err, cancelled, ◌≡◌, ◌≢◌,
  refl, All, ◌⊎◌, inl, inr, arith, Result-cases, Bool-cases,
}
use bitcoinx.Node.Discover.{Poll, wait_ready}
use bitcoinx.Node.Serve.{
  Sender, working, ended, sending, State, started, Met, Step, Reach, here, next,
}
use bitcoinx.Node.Serve.{
  cancel, becomes_ready, container_ends, poller_ends, receive_exit, receive_ready,
}

-- What the result of the poller says.
abbrev Polled : State → Result (Unit {0}) → Type 0
Polled s r = ((r ≡ ok tt) × (s.ready ≡ true)) ⊎ ((r ≡ err cancelled) × (s.cancelled ≡ true))

-- Why `start` returns a result.
abbrev pub Explained : State → Result (Unit {0}) → Type 0
Explained s r = Polled s r ⊎ (s.exit ≡ some r)

wait_ready-Polled :
    (s : State) (polls : List Poll) (r : Result (Unit {0}))
    → All (Met s) polls
    → wait_ready polls ≡ some r
    → Polled s r
unfolding wait_ready
wait_ready-Polled s [] r met e = cc
wait_ready-Polled s (p ∷ polls) r met e = elim (Result-cases p.status) [
  | inl (u, done) ↦ inl (ground arith, met.0.answered done)
  | inr (x, failed) ↦ elim (Bool-cases p.cancelled_waiting) [
    | inl stop ↦ inr (ground arith, met.0.broken_off stop)
    | inr go ↦ wait_ready-Polled s polls r met.1 (ground arith)
  ]
]

abbrev Sends : State → Sender → Type 0
Sends s working = Unit
Sends s ended = Unit
Sends s (sending r) = Polled s r

abbrev Exits : State → Sender → Type 0
Exits s working = s.exit ≡ none
Exits s ended = Unit
Exits s (sending r) = s.exit ≡ some r

abbrev Returns : State → Option (Result (Unit {0})) → Type 0
Returns s none = Unit
Returns s (some r) = Explained s r

record Inv (s : State) : Type 0 where
  poll : Sends s s.poller
  run : Exits s s.server
  result : Returns s s.returned
  taken : s.server ≡ ended → s.returned ≢ none

started-Inv : Inv started
unfolding started
started-Inv = record { poll = tt; run = refl; result = tt; taken = ground arith }

Step-Inv : {s t : State} → Step s t → Inv s → Inv t
Step-Inv (cancel e) v = ground arith
Step-Inv (becomes_ready e) v = ground arith
Step-Inv (container_ends r w e) v = ground arith
Step-Inv {s} (poller_ends polls r w met done e) v = ground (arith, wait_ready-Polled s polls r met)
Step-Inv (receive_exit r n h e) v = ground arith
Step-Inv (receive_ready r n h e) v = ground arith

Reach-Inv : {s : State} → Reach started s → Inv s
Reach-Inv here = started-Inv
Reach-Inv (next r st) = Step-Inv st (Reach-Inv r)

-- The reason for what is returned, once the goroutines run.
pub Reach-Explained :
    {s : State} {r : Result (Unit {0})} → Reach started s → s.returned ≡ some r → Explained s r
Reach-Explained h e = ground (arith, (Reach-Inv h).result)

-- Why `start` returns a result, from the result of opening the log file.
abbrev pub Explains : Result (Unit {0}) → Result (Unit {0}) → Type 0
Explains log r =
    ((e : Error) × (log ≡ err e) × (r ≡ err (wrap (lit "unable to open log file") e)))
    ⊎ ((log ≡ ok tt) × (s : State) × Reach started s × Explained s r)

-- Once the container has ended, `start` has returned, or can return its result in one step.
pub Step-returns :
    (s : State) (r : Result (Unit {0}))
    → Reach started s
    → s.exit ≡ some r
    → s.returned ≡ none
    → Step s (record s { server = ended; returned = some r })
Step-returns s r h e n = receive_exit r n (delivers s.server refl) refl
  where
    v : Inv s
    v = Reach-Inv h

    delivers : (x : Sender) → s.server ≡ x → s.server ≡ sending r
    delivers x q = ground (arith, v.run, v.taken)

Step-leaks :
    {s t : State} (r q : Result (Unit {0}))
    → Step s t
    → (s.returned ≡ some r) × (s.poller ≡ sending q)
    → (t.returned ≡ some r) × (t.poller ≡ sending q)
Step-leaks r q (cancel e) h = ground arith
Step-leaks r q (becomes_ready e) h = ground arith
Step-leaks r q (container_ends x w e) h = ground arith
Step-leaks r q (poller_ends polls x w met done e) h = ground arith
Step-leaks r q (receive_exit x n w e) h = ground arith
Step-leaks r q (receive_ready x n w e) h = ground arith

-- A poller that comes to send after `start` has returned is never received: its goroutine stays
-- blocked for ever, whatever happens, and the result of `start` does not change.
pub Reach-leaks :
    {s t : State} (r q : Result (Unit {0}))
    → Reach s t
    → s.returned ≡ some r
    → s.poller ≡ sending q
    → (t.returned ≡ some r) × (t.poller ≡ sending q)
Reach-leaks r q here hr hp = (hr, hp)
Reach-leaks r q (next h st) hr hp = Step-leaks r q st (Reach-leaks r q h hr hp)
