-- ===== src/Node/Discover.antt =====
-- node/node.go, `discoverPeers` and `announce`, and `waitReady` of node/server.go: the loops that
-- run beside the node until its context is cancelled. What happens in each round is the input, one
-- entry a round; when the entries are used up the loop is still running.
pub mod Laws
use bitcoinx.Base.{
  Text, List, [], ◌∷◌, ◌++◌, Bool, true, false, Option, none, some, Result, ok, err, Error,
  cancelled, eq_text, if◌then◌else◌, ◌||◌,
}
use bitcoinx.Discovery.{PeerInfo}

-- A peer from the channel, and what dialling it would return.
pub record Found : Type 0 where
  pub peer : PeerInfo
  pub dialled : Result (Unit {0})

-- Whether the context is cancelled at the start of the round and while it waits at its end, and
-- what `Peers` gives.
pub record Round : Type 0 where
  pub cancelled_before : Bool
  pub found : Result (List Found)
  pub cancelled_waiting : Bool

-- The keys of the map `seenNodes`.
unfoldable pub is_seen : List Text → Text → Bool
is_seen [] id = false
is_seen (s ∷ seen) id = eq_text s id || is_seen seen id

abbrev pub is_ok : Result (Unit {0}) → Bool
is_ok (ok u) = true
is_ok (err e) = false

-- The dial attempts, in order: the node, and whether it succeeded.
abbrev pub Attempts : Type 0
Attempts = List (Text × Bool)

-- The loop over the channel.
unfoldable pub visit_peers : List Text → List Found → List Text × Attempts
visit_peers seen [] = (seen, [])
visit_peers seen (f ∷ fs) =
    let id = f.peer.node_id in
    let old = is_seen seen id in
    let rest = visit_peers (if old then seen else if is_ok f.dialled then id ∷ seen else seen) fs in
    (rest.0, if old then rest.1 else (id, is_ok f.dialled) ∷ rest.1)

-- The end of the loop, if it has ended, with the attempts.
unfoldable pub discover_peers : List Text → List Round → Option Error × Attempts
discover_peers seen [] = (none, [])
discover_peers seen (r ∷ rounds) = elim (r.found) [
  | err e ↦ (some (if r.cancelled_before then cancelled else e), [])
  | ok fs ↦
      let (seen', attempts) = visit_peers seen fs in
      let rest = discover_peers seen' rounds in
      if r.cancelled_before
      then (some cancelled, [])
      else if r.cancelled_waiting
      then (some cancelled, attempts)
      else (rest.0, attempts ++ rest.1)
]

-- One round of `announce`.
pub record Try : Type 0 where
  pub cancelled_before : Bool
  pub announced : Result (Unit {0})
  pub cancelled_waiting : Bool

unfoldable pub announce : List Try → Option (Result (Unit {0}))
announce [] = none
announce (t ∷ tries) =
    let rest = announce tries in
    if t.cancelled_before
    then some (err cancelled)
    else if is_ok t.announced
    then some (ok tt)
    else if t.cancelled_waiting
    then some (err cancelled)
    else rest

-- One round of `waitReady`: the status call, and whether the context is cancelled in the pause.
pub record Poll : Type 0 where
  pub status : Result (Unit {0})
  pub cancelled_waiting : Bool

unfoldable pub wait_ready : List Poll → Option (Result (Unit {0}))
wait_ready [] = none
wait_ready (p ∷ polls) =
    let rest = wait_ready polls in
    if is_ok p.status
    then some (ok tt)
    else if p.cancelled_waiting
    then some (err cancelled)
    else rest
