-- ===== src/Node/Group.antt =====
-- The end of `Start` in node/node.go: four goroutines run in an error group, and `Start` returns what
-- the group's `Wait` returns. The package errgroup is a parameter.
pub mod Laws
pub mod Server
pub mod Samples
use bitcoinx.Base.{
  Bool, true, false, ◌||◌, List, [], Option, none, some, Result, ok, err, Error, ◌≡◌, All, Text,
}
use bitcoinx.Node.Discover.{Round, Try, announce, discover_peers}

-- A group of type `S`: a new one, the group after one of its functions has returned, whether it has
-- cancelled its context, and what `Wait` returns once all functions have.
pub record ErrGroup (S : Type 0) : Type 0 where
  pub fresh : S
  pub finish : S → Result (Unit {0}) → S
  pub is_cancelled : S → Bool
  pub wait : S → Result (Unit {0})

-- `none` is a goroutine that is still running, or `Wait` that has not returned.
pub record State (S : Type 0) : Type 0 where
  pub group : S
  pub server : Option (Result (Unit {0}))
  pub explorer : Option (Result (Unit {0}))
  pub announcer : Option (Result (Unit {0}))
  pub discoverer : Option (Result (Unit {0}))
  pub parent_cancelled : Bool
  pub returned : Option (Result (Unit {0}))

module _ {S : Type 0} (errgroup : ErrGroup S) where
  open errgroup use {fresh, finish, is_cancelled, wait}

  unfoldable pub started : State S
  started = record {
    group = fresh;
    server = none;
    explorer = none;
    announcer = none;
    discoverer = none;
    parent_cancelled = false;
    returned = none;
  }

  -- The context of the group is done.
  unfoldable pub is_done : State S → Bool
  is_done s = s.parent_cancelled || is_cancelled s.group

  -- What the two loops have met can have happened: only a context that is done stops them.
  pub record MetTry (s : State S) (t : Try) : Type 0 where
    pub before : t.cancelled_before ≡ true → is_done s ≡ true
    pub waiting : t.cancelled_waiting ≡ true → is_done s ≡ true

  pub record MetRound (s : State S) (r : Round) : Type 0 where
    pub before : r.cancelled_before ≡ true → is_done s ≡ true
    pub waiting : r.cancelled_waiting ≡ true → is_done s ≡ true

  pub data Step (s t : State S) : Type 0 where
    cancel : t ≡ record s { parent_cancelled = true } → Step s t
    server_ends :
        (r : Result (Unit {0}))
        → s.server ≡ none
        → t ≡ record s { server = some r; group = finish s.group r }
        → Step s t
    explorer_ends :
        (r : Result (Unit {0}))
        → s.explorer ≡ none
        → t ≡ record s { explorer = some r; group = finish s.group r }
        → Step s t
    announcer_ends :
        (tries : List Try) (r : Result (Unit {0}))
        → s.announcer ≡ none
        → All (MetTry s) tries
        → announce tries ≡ some r
        → t ≡ record s { announcer = some r; group = finish s.group r }
        → Step s t
    discoverer_ends :
        (rounds : List Round) (e : Error)
        → s.discoverer ≡ none
        → All (MetRound s) rounds
        → (discover_peers [] rounds).0 ≡ some e
        → t ≡ record s { discoverer = some (err e); group = finish s.group (err e) }
        → Step s t
    wait_returns :
        (a b c d : Result (Unit {0}))
        → s.returned ≡ none
        → s.server ≡ some a
        → s.explorer ≡ some b
        → s.announcer ≡ some c
        → s.discoverer ≡ some d
        → t ≡ record s { returned = some (wait s.group) }
        → Step s t

  pub data Reach (s : State S) : State S → Type 0 where
    here : Reach s s
    next : {t u : State S} → Reach s t → Step t u → Reach s u
