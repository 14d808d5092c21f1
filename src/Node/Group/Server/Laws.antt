-- ===== src/Node/Group/Server/Laws.antt =====
-- That a node does not stop before its server.
use bitcoinx.Base.{Option, none, some, Result, err, Error, ◌≡◌, ◌≢◌, refl, arith, sym, subst, ◌∙◌}
use bitcoinx.Node.Serve
use bitcoinx.Node.Serve.Wait
use bitcoinx.Node.Serve.Wait.Laws.{Reach-result}
use bitcoinx.Node.Group
use bitcoinx.Node.Group.{ErrGroup}
use bitcoinx.Node.Group.Laws.{IsErrGroup, SomeFailed, Reach-SomeFailed}
use bitcoinx.Node.Group.Server.{
  State, IsBegin, begin, Step, Reach, here, next, cancels, server_moves, wait_ends, group_moves,
}

module _ {S : Type 0} (errgroup : ErrGroup S) where
  -- The parts move as they do alone, the group has of the server what `wait` has returned, and it
  -- only ends when it has that.
  pub record Inv (s : State S) : Type 0 where
    pub group_reached : Group.Reach errgroup (Group.started errgroup) s.group
    pub wait_reached : Wait.Reach Wait.started s.wait
    pub heard : (r : Result (Unit {0})) → s.group.server ≡ some r → s.wait.result ≡ some r
    pub waited : s.group.returned ≢ none → s.group.server ≢ none

  -- A group's server stays ended, and the group only ends behind it.
  Group-waited :
      {g h : Group.State S}
      → Group.Step errgroup g h
      → (g.returned ≢ none → g.server ≢ none)
      → h.returned ≢ none
      → h.server ≢ none
  Group-waited (Group.cancel e) v = ground arith
  Group-waited (Group.server_ends r n e) v = ground arith
  Group-waited (Group.explorer_ends r n e) v = ground arith
  Group-waited (Group.announcer_ends tries r n met d e) v = ground arith
  Group-waited (Group.discoverer_ends rounds x n met d e) v = ground arith
  Group-waited (Group.wait_returns a b c d n ha hb hc hd e) v = ground arith

  -- What `wait` has returned stays.
  Wait-result :
      {w v : Wait.State} (r : Result (Unit {0}))
      → Wait.Step w v
      → w.result ≡ some r
      → v.result ≡ some r
  Wait-result r (Wait.start_moves u st e) h = ground arith
  Wait-result r (Wait.wait_receives q a n x e) h = ground arith
  Wait-result r (Wait.wait_finds_closed a n x e) h = ground arith

  begin-Inv : {s : State S} → IsBegin errgroup s → Inv s
  unfolding Group.started
  begin-Inv (begin w reached up open_) = record {
    group_reached = Group.here;
    wait_reached = reached;
    heard = λ r h. cc;
    waited = λ k l. k refl;
  }

  Step-Inv : {s t : State S} → Step errgroup s t → Inv s → Inv t
  Step-Inv {s} (cancels e) v = subst Inv (sym e) (record {
    group_reached = Group.next v.group_reached (Group.cancel refl);
    wait_reached = Wait.next v.wait_reached (Wait.start_moves _ (Serve.cancel refl) refl);
    heard = v.heard;
    waited = v.waited;
  })
  Step-Inv {s} (server_moves w st same e) v = subst Inv (sym e) (record {
    group_reached = v.group_reached;
    wait_reached = Wait.next v.wait_reached st;
    heard = λ r h. Wait-result r st (v.heard r h);
    waited = v.waited;
  })
  Step-Inv {s} (wait_ends r h n e) v = subst Inv (sym e) (record {
    group_reached = Group.next v.group_reached (Group.server_ends r n refl);
    wait_reached = v.wait_reached;
    heard = λ q k. h ∙ k;
    waited = λ k l. cc;
  })
  Step-Inv {s} (group_moves g st same cancelled e) v = subst Inv (sym e) (record {
    group_reached = Group.next v.group_reached st;
    wait_reached = v.wait_reached;
    heard = λ r h. v.heard r (sym same ∙ h);
    waited = Group-waited st v.waited;
  })

  pub Reach-Inv : {s t : State S} → IsBegin errgroup s → Reach errgroup s t → Inv t
  Reach-Inv b here = begin-Inv b
  Reach-Inv b (next r st) = Step-Inv st (Reach-Inv b r)

  some_result : (o : Option (Result (Unit {0}))) → o ≢ none → (x : Result (Unit {0})) × (o ≡ some x)
  some_result none h = absurd (h refl)
  some_result (some x) h = (x, refl)

  -- With an error group that keeps the first error: a node whose goroutines run only stops when the
  -- container of its server has ended, of which the group has been told how it did, and it stops
  -- with an error that one of its goroutines has returned.
  pub Reach-stops :
      {failed : S → Option Error} (lawful : IsErrGroup errgroup failed)
      → {s t : State S} (r : Result (Unit {0})) → IsBegin errgroup s
      → Reach errgroup s t
      → t.group.returned ≡ some r
      → ((x : Result (Unit {0})) × (t.wait.serve.exit ≡ some x) × (t.group.server ≡ some x))
        × ((e : Error) × (r ≡ err e) × SomeFailed errgroup lawful t.group e)
  Reach-stops lawful {s} {t} r b reach h =
      let v = Reach-Inv b reach in
      let (x, told) = some_result t.group.server (v.waited (λ k. clash (sym h ∙ k))) in
      (
        (x, Reach-result v.wait_reached (v.heard x told), told),
        Reach-SomeFailed errgroup lawful v.group_reached h,
      )
    where
      clash : some r ≡ none → ⊥
      clash k = cc
