-- ===== src/Util/Run/Laws.antt =====
-- What has happened when `RunWithFD` returns.
use bitcoinx.Base.{
  Option, none, some, Result, err, Error, ◌≡◌, ◌⊎◌, inl, inr, refl, Bool, true, false, ap, subst,
  sym, ◌∙◌,
}
use bitcoinx.Util.Watch
use bitcoinx.Util.Watch.Laws.{Step-finished}
use bitcoinx.Util.Run.{
  Main, starting, waiting, waited, returned, State, initial, Step, Reach, here, next,
}
use bitcoinx.Util.Run.{start_fails, starts, process_exits, wait_returns, close_done, watcher_moves}

-- The goroutine runs, and the channel is closed or not.
abbrev Watched : State → Bool → Type 0
Watched s closed =
    (w : Watch.State) × (s.watcher ≡ some w) × Watch.Reach Watch.started w × (w.wait_done ≡ closed)

-- What is so at each place of the function.
abbrev At : State → Main → Type 0
At s starting = (s.exit ≡ none) × (s.watcher ≡ none)
At s waiting = Watched s false
At s (waited r) = (s.exit ≡ some r) × Watched s false
At s (returned r) =
    ((s.exit ≡ none) × (s.watcher ≡ none) × ((e : Error) × (r ≡ err e)))
    ⊎ ((s.exit ≡ some r) × Watched s true)

initial-At : At initial (initial.main)
unfolding initial
initial-At = (refl, refl)

same_watcher : {w v : Watch.State} {o : Option Watch.State} → o ≡ some w → o ≡ some v → w ≡ v
same_watcher h k = cc

Watched-moves :
    (s : State) (w w' : Watch.State) {b : Bool}
    → s.watcher ≡ some w
    → Watch.Step w w'
    → w'.wait_done ≡ w.wait_done
    → Watched s b
    → Watched (record s { watcher = some w' }) b
Watched-moves s w w' h st same (v, k, r, e) =
    let eq = same_watcher k h in
    (
      w',
      refl,
      Watch.next (subst (λ (u : Watch.State). Watch.Reach Watch.started u) eq r) st,
      same ∙ ap (λ (u : Watch.State). u.wait_done) (sym eq) ∙ e,
    )

At-moves :
    (s : State) (m : Main) (w w' : Watch.State)
    → s.watcher ≡ some w
    → Watch.Step w w'
    → w'.wait_done ≡ w.wait_done
    → At s m
    → At (record s { watcher = some w' }) m
At-moves s starting w w' h st same (_, unset) = cc
At-moves s waiting w w' h st same i = Watched-moves s w w' h st same i
At-moves s (waited r) w w' h st same (x, i) = (x, Watched-moves s w w' h st same i)
At-moves s (returned r) w w' h st same (inl (_, unset, _)) = cc
At-moves s (returned r) w w' h st same (inr (x, i)) = inr (x, Watched-moves s w w' h st same i)

closes :
    (s : State) (r : Result (Unit {0})) (w : Watch.State)
    → s.watcher ≡ some w
    → At s (waited r)
    → At
        (record s { main = returned r; watcher = some (record w { wait_done = true }) })
        (returned r)
closes s r w h (x, (v, k, reach, _)) = inr (
  x,
  (
    record w { wait_done = true },
    refl,
    Watch.next (subst (λ (u : Watch.State). Watch.Reach Watch.started u) (same_watcher k h) reach)
        (Watch.process_exits refl),
    refl,
  ),
)

Step-At : {s t : State} → Step s t → At s (s.main) → At t (t.main)
Step-At {s} (start_fails x h e) i =
    let (unset, none_yet) = subst (At s) h i in
    subst (λ (u : State). At u (u.main)) (sym e) (inl (unset, none_yet, (x, refl)))
Step-At {s} (starts h e) i =
    subst (λ (u : State). At u (u.main)) (sym e)
      (Watch.started, refl, Watch.here, unfold Watch.started in refl)
Step-At {s} (process_exits r h unset e) i =
    subst (λ (u : State). At u (u.main)) (sym e)
      (subst (At (record s { exit = some r })) (sym h) (subst (At s) h i))
Step-At {s} (wait_returns r h x e) i =
    subst (λ (u : State). At u (u.main)) (sym e) (x, subst (At s) h i)
Step-At {s} (close_done r w h k e) i =
    subst (λ (u : State). At u (u.main)) (sym e) (closes s r w k (subst (At s) h i))
Step-At {s} (watcher_moves w w' h st same e) i =
    subst (λ (u : State). At u (u.main)) (sym e) (At-moves s s.main w w' h st same i)

Reach-At : {s : State} → Reach initial s → At s (s.main)
Reach-At here = initial-At
Reach-At (next r st) = Step-At st (Reach-At r)

-- How the function returns: the process could not be started, and nothing else was done; or it has
-- ended with the result that is returned, and the goroutine has returned or can return in one step
-- without another signal.
abbrev pub Returned : State → Result (Unit {0}) → Type 0
Returned s r =
    ((s.exit ≡ none) × (s.watcher ≡ none) × ((e : Error) × (r ≡ err e)))
    ⊎ ((s.exit ≡ some r)
        × ((w : Watch.State) × (s.watcher ≡ some w)
            × Watch.Reach Watch.started w
            × ((w.phase ≡ Watch.finished) ⊎ Watch.Step w (record w { phase = Watch.finished }))))

-- When `RunWithFD` has returned, the process could not be started and no goroutine was, or the
-- process has ended with the result that is returned, and the goroutine, whose moves are those of
-- `Watch`, has returned or can return in one step without another signal.
pub Reach-Returned :
    {s : State} (r : Result (Unit {0})) → Reach initial s → s.main ≡ returned r → Returned s r
Reach-Returned {s} r reach h = elim (subst (At s) h (Reach-At reach)) [
  | inl failed ↦ inl failed
  | inr (x, (w, k, moved, closed)) ↦ inr (x, (w, k, moved, Step-finished w closed))
]
