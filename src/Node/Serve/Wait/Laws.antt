-- ===== src/Node/Serve/Wait/Laws.antt =====
-- What `wait` of the server returns, and when.
use bitcoinx.Base.{Option, none, some, Result, ok, ◌≡◌, ◌≢◌, refl, arith, subst, sym}
use bitcoinx.Node.Serve
use bitcoinx.Node.Serve.{Sender, working, ended, sending}
use bitcoinx.Node.Serve.Wait.{
  State, started, Step, Reach, here, next, start_moves, wait_receives, wait_finds_closed,
}

-- How the channel, the container and the two results go together.
abbrev Case : Serve.State → Sender → Option (Result (Unit {0})) → Type 0
Case s working none = s.exit ≡ none
Case s working (some r) = ⊥
Case s (sending r) none = s.exit ≡ some r
Case s (sending r) (some q) = ⊥
Case s ended none = (s.exit ≡ s.returned) × (s.returned ≢ none)
Case s ended (some r) = (s.exit ≡ some r) × (s.returned ≡ some (ok tt))

abbrev Inv : State → Type 0
Inv s = Case s.serve s.serve.server s.result

started-Inv : Inv started
unfolding started Serve.started
started-Inv = refl

Serve-Case :
    {s u : Serve.State} (m : Option (Result (Unit {0})))
    → Serve.Step s u
    → Case s (s.server) m
    → Case u (u.server) m
Serve-Case m (Serve.cancel e) v = ground arith
Serve-Case m (Serve.becomes_ready e) v = ground arith
Serve-Case m (Serve.container_ends r w e) v = ground arith
Serve-Case m (Serve.poller_ends polls r w met done e) v = ground arith
Serve-Case m (Serve.receive_exit r n h e) v = ground arith
Serve-Case m (Serve.receive_ready r n h e) v = ground arith

Step-Inv : {s t : State} → Step s t → Inv s → Inv t
Step-Inv {s} (start_moves u st e) v = subst Inv (sym e) (Serve-Case s.result st v)
Step-Inv (wait_receives r a n h e) v = ground arith
Step-Inv (wait_finds_closed a n h e) v = ground arith

Reach-Inv : {s : State} → Reach started s → Inv s
Reach-Inv here = started-Inv
Reach-Inv (next r st) = Step-Inv st (Reach-Inv r)

-- `wait` returns only when the container has ended, and returns how it did, also when `start` had
-- taken that from the channel before.
pub Reach-result :
    {s : State} {r : Result (Unit {0})}
    → Reach started s
    → s.result ≡ some r
    → s.serve.exit ≡ some r
Reach-result {s} reach h = ground (arith, Reach-Inv reach, h)

-- Once `start` has succeeded and the container has ended, `wait` can return how it did in one step.
pub Reach-returns :
    (s : State) (r : Result (Unit {0}))
    → Reach started s
    → s.serve.returned ≡ some (ok tt)
    → s.serve.exit ≡ some r
    → s.result ≡ none
    → (t : State) × Step s t × (t.result ≡ some r)
Reach-returns s r reach up over open_ = by_server s.serve.server refl
  where
    v : Inv s
    v = Reach-Inv reach

    by_server : (x : Sender) → s.serve.server ≡ x → (t : State) × Step s t × (t.result ≡ some r)
    by_server working q = absurd (ground (arith, v, q, over))
    by_server ended q = (
      record s { result = some (ok tt) },
      wait_finds_closed up open_ q refl,
      ground (arith, v, q, over, up),
    )
    by_server (sending y) q = (
      record s { serve = record s.serve { server = ended }; result = some r },
      wait_receives r up open_ (ground (arith, v, q, over)) refl,
      refl,
    )
