-- ===== src/Node/Group/Laws.antt =====
-- When the goroutines of a node are stopped, and what `Start` returns in the end.
use bitcoinx.Base.{
  Bool, true, false, Option, none, some, Result, ok, err, Error, ◌≡◌, refl, ◌⊎◌, inl, inr, arith,
  Bool-cases,
}
use bitcoinx.Node.Group.{ErrGroup, State, started, is_done, Step, Reach, here, next}
use bitcoinx.Node.Group.{
  cancel, server_ends, explorer_ends, announcer_ends, discoverer_ends, wait_returns,
}

-- The first error is kept.
abbrev pub first_error : Option Error → Result (Unit {0}) → Option Error
first_error none (ok u) = none
first_error none (err e) = some e
first_error (some x) r = some x

abbrev pub as_result : Option Error → Result (Unit {0})
as_result none = ok tt
as_result (some e) = err e

abbrev pub is_some : Option Error → Bool
is_some none = false
is_some (some e) = true

-- What the package documents: the first error that a function returns cancels the context and is
-- returned by `Wait`; `failed` is that error.
pub record IsErrGroup {S : Type 0} (errgroup : ErrGroup S) (failed : S → Option Error)
    : Type 0 where
  pub failed-fresh : failed errgroup.fresh ≡ none
  pub failed-finish :
      (g : S) (r : Result (Unit {0})) → failed (errgroup.finish g r) ≡ first_error (failed g) r
  pub is_cancelled-failed : (g : S) → errgroup.is_cancelled g ≡ is_some (failed g)
  pub wait-failed : (g : S) → errgroup.wait g ≡ as_result (failed g)

abbrev Failed : Option (Result (Unit {0})) → Error → Type 0
Failed r e = r ≡ some (err e)

module _ {S : Type 0} (errgroup : ErrGroup S) {failed : S → Option Error}
    (lawful : IsErrGroup errgroup failed) where
  -- One of the four goroutines has returned the error.
  abbrev pub SomeFailed : State S → Error → Type 0
  SomeFailed s e =
      Failed s.server e ⊎ (Failed s.explorer e ⊎ (Failed s.announcer e ⊎ Failed s.discoverer e))

  -- The error of the group, and what `Start` has returned.
  abbrev Recorded : State S → Option Error → Type 0
  Recorded s none = s.discoverer ≡ none
  Recorded s (some e) = SomeFailed s e

  abbrev Returned : State S → Option (Result (Unit {0})) → Type 0
  Returned s none = Unit
  Returned s (some r) = (e : Error) × (r ≡ err e) × SomeFailed s e

  record Inv (s : State S) : Type 0 where
    recorded : Recorded s (failed s.group)
    result : Returned s s.returned

  started-Inv : Inv (started errgroup)
  unfolding started
  started-Inv = record { recorded = rw (lawful.failed-fresh) refl; result = tt }

  Step-Inv : {s t : State S} → Step errgroup s t → Inv s → Inv t
  Step-Inv (cancel e) v = ground arith
  Step-Inv {s} (server_ends r n e) v = ground (arith, lawful.failed-finish s.group r)
  Step-Inv {s} (explorer_ends r n e) v = ground (arith, lawful.failed-finish s.group r)
  Step-Inv {s} (announcer_ends tries r n met done e) v =
      ground (arith, lawful.failed-finish s.group r)
  Step-Inv {s} (discoverer_ends rounds x n met done e) v =
      ground (arith, lawful.failed-finish s.group (err x))
  Step-Inv {s} (wait_returns a b c d n ha hb hc hd e) v = ground (arith, lawful.wait-failed s.group)

  Reach-Inv : {s : State S} → Reach errgroup (started errgroup) s → Inv s
  Reach-Inv here = started-Inv
  Reach-Inv (next r st) = Step-Inv st (Reach-Inv r)

  -- With an error group that keeps the first error, a node never stops without an error once its
  -- goroutines run: what `Start` returns is an error that one of the four goroutines has returned.
  pub Reach-SomeFailed :
      {s : State S} {r : Result (Unit {0})}
      → Reach errgroup (started errgroup) s
      → s.returned ≡ some r
      → (e : Error) × (r ≡ err e) × SomeFailed s e
  Reach-SomeFailed h e = ground (arith, (Reach-Inv h).result)

  -- With an error group that keeps the first error, the goroutines are only told to stop when the context of the node was cancelled or one of them
  -- has failed. A server or an explorer that ends without an error stops nothing.
  pub Reach-is_done :
      {s : State S}
      → Reach errgroup (started errgroup) s
      → is_done errgroup s ≡ true
      → (s.parent_cancelled ≡ true) ⊎ ((e : Error) × SomeFailed s e)
  unfolding is_done
  Reach-is_done {s} h d = elim (Bool-cases s.parent_cancelled) [
    | inl p ↦ inl p
    | inr p ↦ inr (of_group p (failed s.group) refl)
  ]
    where
      of_group :
          s.parent_cancelled ≡ false
          → (o : Option Error) → failed s.group ≡ o
          → (e : Error) × SomeFailed s e
      of_group p none q = absurd (ground (arith, lawful.is_cancelled-failed s.group))
      of_group p (some e) q = (e, ground (arith, (Reach-Inv h).recorded))
