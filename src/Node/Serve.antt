-- ===== src/Node/Serve.antt =====
-- `start` of node/server.go: one goroutine runs the node's container, another one polls its status,
-- and `start` waits for the first of the two channels that delivers.
pub mod Laws
pub mod Wait
use bitcoinx.Base.{
  Error, wrap, lit, Bool, true, false, List, Option, none, some, Result, ok, err, ◌≡◌, All,
}
use bitcoinx.Node.Discover.{Poll, wait_ready}

-- A goroutine that computes a result, sends it on a channel without a buffer, and closes the channel.
pub data Sender : Type 0 where
  working ended : Sender
  sending : Result (Unit {0}) → Sender

-- `ready` tells whether a status call has succeeded, and `exit` how the container ended; `returned`
-- is what `start` has returned.
pub record State : Type 0 where
  pub server : Sender
  pub poller : Sender
  pub returned : Option (Result (Unit {0}))
  pub cancelled : Bool
  pub ready : Bool
  pub exit : Option (Result (Unit {0}))

unfoldable pub started : State
started = record {
  server = working;
  poller = working;
  returned = none;
  cancelled = false;
  ready = false;
  exit = none;
}

-- What `waitReady` has met can have happened: a pause is only broken off by the cancelled context,
-- and the status is only fetched from a server that is ready.
pub record Met (s : State) (p : Poll) : Type 0 where
  pub broken_off : p.cancelled_waiting ≡ true → s.cancelled ≡ true
  pub answered : p.status ≡ ok tt → s.ready ≡ true

pub data Step (s t : State) : Type 0 where
  cancel : t ≡ record s { cancelled = true } → Step s t
  becomes_ready : t ≡ record s { ready = true } → Step s t
  container_ends :
      (r : Result (Unit {0}))
      → s.server ≡ working
      → t ≡ record s { server = sending r; exit = some r }
      → Step s t
  poller_ends :
      (polls : List Poll) (r : Result (Unit {0}))
      → s.poller ≡ working
      → All (Met s) polls
      → wait_ready polls ≡ some r
      → t ≡ record s { poller = sending r }
      → Step s t
  receive_exit :
      (r : Result (Unit {0}))
      → s.returned ≡ none
      → s.server ≡ sending r
      → t ≡ record s { server = ended; returned = some r }
      → Step s t
  receive_ready :
      (r : Result (Unit {0}))
      → s.returned ≡ none
      → s.poller ≡ sending r
      → t ≡ record s { poller = ended; returned = some r }
      → Step s t

pub data Reach (s : State) : State → Type 0 where
  here : Reach s s
  next : {t u : State} → Reach s t → Step t u → Reach s u

-- What `start` returns, from the result of opening the log file: an error of that, before anything
-- is run, or what it returns in the end.
pub data StartReturns : Result (Unit {0}) → Result (Unit {0}) → Type 0 where
  log_not_opened : (e : Error) → StartReturns (err e) (err (wrap (lit "unable to open log file") e))
  served :
      (s : State) (r : Result (Unit {0}))
      → Reach started s
      → s.returned ≡ some r
      → StartReturns (ok tt) r
