-- ===== src/Node/Group/Server.antt =====
-- The end of `Start` in node/node.go together with the server of node/server.go: the first function
-- of the error group is `wait` of the server that `Start` has started.
pub mod Laws
mod Tests
use bitcoinx.Base.{true, none, some, Result, ok, ◌≡◌}
use bitcoinx.Node.Group
use bitcoinx.Node.Group.{ErrGroup}
use bitcoinx.Node.Serve.Wait

pub record State (S : Type 0) : Type 0 where
  pub group : Group.State S
  pub wait : Wait.State

module _ {S : Type 0} (errgroup : ErrGroup S) where
  -- The group begins once `start` of the server has succeeded.
  pub data IsBegin : State S → Type 0 where
    begin :
        (w : Wait.State)
        → Wait.Reach Wait.started w
        → w.serve.returned ≡ some (ok tt)
        → w.result ≡ none
        → IsBegin (record { group = Group.started errgroup; wait = w })

  -- The context of the node is that of the server and the parent of the group's.
  pub data Step (s t : State S) : Type 0 where
    cancels :
        t ≡ record s {
          group = record s.group { parent_cancelled = true };
          wait = record s.wait { serve = record s.wait.serve { cancelled = true } };
        }
        → Step s t
    server_moves :
        (w : Wait.State)
        → Wait.Step s.wait w
        → w.serve.cancelled ≡ s.wait.serve.cancelled
        → t ≡ record s { wait = w }
        → Step s t
    wait_ends :
        (r : Result (Unit {0}))
        → s.wait.result ≡ some r
        → s.group.server ≡ none
        → t ≡ record s {
          group = record s.group { server = some r; group = errgroup.finish s.group.group r };
        }
        → Step s t
    group_moves :
        (g : Group.State S)
        → Group.Step errgroup s.group g
        → g.server ≡ s.group.server
        → g.parent_cancelled ≡ s.group.parent_cancelled
        → t ≡ record s { group = g }
        → Step s t

  pub data Reach (s : State S) : State S → Type 0 where
    here : Reach s s
    next : {t u : State S} → Reach s t → Step t u → Reach s u
