-- ===== src/Node/Discover/Laws.antt =====
-- No node is dialled again once it was reached, those that could not be reached are dialled again,
-- and the other loops retry until they succeed or are cancelled.
use bitcoinx.Base.{
  Text, List, [], ◌∷◌, ◌++◌, Bool, true, false, some, Result, ok, err, Error, cancelled,
  if◌then◌else◌, ◌≡◌, refl, arith, All, Bool-cases, inl, inr, eq_text_refl,
}
use bitcoinx.Node.Discover.{
  Found, Round, is_seen, is_ok, Attempts, visit_peers, discover_peers, Try, announce, Poll,
  wait_ready,
}

-- The nodes that were reached, after these attempts.
abbrev pub reached : List Text → Attempts → List Text
reached seen [] = seen
reached seen ((id, done) ∷ rest) = reached (if done then id ∷ seen else seen) rest

-- No attempt is made at a node that was reached before.
abbrev pub NoRepeat : List Text → Attempts → Type 0
NoRepeat seen [] = Unit
NoRepeat seen ((id, done) ∷ rest) =
    (is_seen seen id ≡ false) × NoRepeat (if done then id ∷ seen else seen) rest

NoRepeat-append :
    (seen : List Text) (xs ys : Attempts)
    → NoRepeat seen xs
    → NoRepeat (reached seen xs) ys
    → NoRepeat seen (xs ++ ys)
NoRepeat-append seen [] ys hx hy = hy
NoRepeat-append seen ((id, done) ∷ xs) ys hx hy =
    (hx.0, NoRepeat-append (if done then id ∷ seen else seen) xs ys hx.1 hy)

visit_peers-NoRepeat :
    (seen : List Text) (fs : List Found)
    → NoRepeat seen (visit_peers seen fs).1
      × (reached seen (visit_peers seen fs).1 ≡ (visit_peers seen fs).0)
unfolding visit_peers
visit_peers-NoRepeat seen [] = (tt, refl)
visit_peers-NoRepeat seen (f ∷ fs) = elim (Bool-cases (is_seen seen f.peer.node_id)) [
  | inl old ↦ rw old (visit_peers-NoRepeat seen fs)
  | inr new ↦
      let (h, e) =
        visit_peers-NoRepeat (if is_ok f.dialled then f.peer.node_id ∷ seen else seen) fs in
      rw new ((new, h), e)
]

discover_peers-NoRepeat_from :
    (seen : List Text) (rounds : List Round) → NoRepeat seen (discover_peers seen rounds).1
unfolding discover_peers
discover_peers-NoRepeat_from seen [] = tt
discover_peers-NoRepeat_from seen (r ∷ rounds) =
    go r.found r.cancelled_before r.cancelled_waiting (λ s. discover_peers-NoRepeat_from s rounds)
  where
    go :
        (found : Result (List Found)) (before waiting : Bool)
        → ((s : List Text) → NoRepeat s (discover_peers s rounds).1)
        → NoRepeat seen
            (discover_peers seen (
              record { cancelled_before = before; found = found; cancelled_waiting = waiting }
              ∷ rounds)).1
    go (err e) before waiting ih = tt
    go (ok fs) true waiting ih = tt
    go (ok fs) false true ih = (visit_peers-NoRepeat seen fs).0
    go (ok fs) false false ih =
        let (h, e) = visit_peers-NoRepeat seen fs in
        NoRepeat-append seen (visit_peers seen fs).1 _ h (rw e (ih (visit_peers seen fs).0))

-- However often and in whatever order nodes are found, and whatever fails, discovery never dials a
-- node again that it has dialled with success.
pub discover_peers-NoRepeat : (rounds : List Round) → NoRepeat [] (discover_peers [] rounds).1
discover_peers-NoRepeat rounds = discover_peers-NoRepeat_from [] rounds

is_seen-visit_peers :
    (seen : List Text) (fs : List Found) (id : Text)
    → is_seen seen id ≡ true
    → is_seen (visit_peers seen fs).0 id ≡ true
unfolding visit_peers is_seen
is_seen-visit_peers seen [] id h = h
is_seen-visit_peers seen (f ∷ fs) id h =
    is_seen-visit_peers
      (if is_seen seen f.peer.node_id
        then seen
        else if is_ok f.dialled
        then f.peer.node_id ∷ seen
        else seen)
      fs id (ground arith)

-- A node that is found and can be dialled is among the reached nodes after the round, wherever it
-- comes in the channel, also if dialling it failed in an earlier round.
pub visit_peers-reaches :
    (seen : List Text) (before after : List Found) (f : Found)
    → f.dialled ≡ ok tt
    → is_seen (visit_peers seen (before ++ f ∷ after)).0 f.peer.node_id ≡ true
unfolding visit_peers
visit_peers-reaches seen [] after f h =
    is_seen-visit_peers _ after f.peer.node_id (here (is_seen seen f.peer.node_id) refl)
  where
    here :
        (old : Bool)
        → is_seen seen f.peer.node_id ≡ old
        → is_seen
            (if old then seen else if is_ok f.dialled then f.peer.node_id ∷ seen else seen)
            f.peer.node_id
          ≡ true
    here true e = e
    here false e = rw h (unfold is_seen in rw (eq_text_refl f.peer.node_id))
visit_peers-reaches seen (g ∷ before) after f h =
    visit_peers-reaches
      (if is_seen seen g.peer.node_id
        then seen
        else if is_ok g.dialled
        then g.peer.node_id ∷ seen
        else seen)
      before after f h

-- A try that failed while the context was not cancelled.
pub record IsRetry (t : Try) : Type 0 where
  pub live : t.cancelled_before ≡ false
  pub failed : is_ok t.announced ≡ false
  pub waited : t.cancelled_waiting ≡ false

-- After any number of failures the node is announced by the first try that succeeds, if the context
-- is not cancelled before it.
pub announce-retries :
    (failures rest : List Try) (t : Try)
    → All IsRetry failures
    → t.cancelled_before ≡ false
    → t.announced ≡ ok tt
    → announce (failures ++ t ∷ rest) ≡ some (ok tt)
unfolding announce
announce-retries [] rest t h live done = rw (live, done)
announce-retries (f ∷ failures) rest t h live done =
    rw (h.0.live, h.0.failed, h.0.waited) (announce-retries failures rest t h.1 live done)

-- Announcing fails in no other way than by the cancelling of the context.
pub announce-cancelled :
    (tries : List Try) {e : Error} → announce tries ≡ some (err e) → e ≡ cancelled
unfolding announce
announce-cancelled [] h = cc
announce-cancelled (t ∷ tries) {e} h = ground (arith, announce-cancelled tries {e = e})

-- Waiting for the server ends with success at the first status call that succeeds, if the context
-- is not cancelled in a pause before it.
pub wait_ready-polls :
    (failures rest : List Poll) (p : Poll)
    → All (λ f. (is_ok f.status ≡ false) × (f.cancelled_waiting ≡ false)) failures
    → p.status ≡ ok tt
    → wait_ready (failures ++ p ∷ rest) ≡ some (ok tt)
unfolding wait_ready
wait_ready-polls [] rest p h done = rw done
wait_ready-polls (f ∷ failures) rest p h done =
    rw (h.0.0, h.0.1) (wait_ready-polls failures rest p h.1 done)
