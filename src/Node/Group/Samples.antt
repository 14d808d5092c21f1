-- ===== src/Node/Group/Samples.antt =====
-- An error group for runs, and loops that are stopped.
use bitcoinx.Base.{[], true, false, Option, none, ok, Error, refl}
use bitcoinx.Node.Discover.{Round, Try}
use bitcoinx.Node.Group.{ErrGroup}
use bitcoinx.Node.Group.Laws.{IsErrGroup, first_error, as_result, is_some}

-- A group that is its first error.
abbrev pub errgroup : ErrGroup (Option Error)
errgroup = record { fresh = none; finish = first_error; is_cancelled = is_some; wait = as_result }

pub errgroup-IsErrGroup : IsErrGroup errgroup (λ g. g)
errgroup-IsErrGroup = record {
  failed-fresh = refl;
  failed-finish = λ g r. refl;
  is_cancelled-failed = λ g. refl;
  wait-failed = λ g. refl;
}

-- Attempts of a context that is cancelled.
abbrev pub stopped_try : Try
stopped_try = record { cancelled_before = true; announced = ok tt; cancelled_waiting = false }

abbrev pub stopped_round : Round
stopped_round = record { cancelled_before = true; found = ok []; cancelled_waiting = false }
