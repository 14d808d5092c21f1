-- ===== src/Httpfs/Laws.antt =====
-- A walk through a file system without faults calls the function on every file and directory, each
-- directory before what is in it, until the function fails.
use mathlib.Core.Path.{fun_ext}
use bitcoinx.Base.{
  Text, Bool, true, false, none, some, Result, ok, err, Error, is_skip_dir, Eff, List, [], ◌∷◌,
  ◌++◌, ◌≡◌, refl, ◌∙◌, ap, sym,
}
use bitcoinx.GoPath.{path_join}
use bitcoinx.Httpfs.{
  Dir, dir, Entries, end, file, sub, WalkFunc, walk, walk_entries, or_continue, and_then,
}

-- Every directory can be opened, described and listed.
unfoldable mutual
  pub IsSound : Dir → Type 0
  IsSound (dir opened stat read entries) =
      (opened ≡ none) × (stat ≡ none) × (read ≡ none) × AreSound entries

  pub AreSound : Entries → Type 0
  AreSound end = Unit
  AreSound (file name rest) = AreSound rest
  AreSound (sub name d rest) = IsSound d × AreSound rest

-- The paths below a root, with whether each is a directory, in the order of a walk.
unfoldable mutual
  pub preorder : Dir → Text → List (Text × Bool)
  preorder (dir opened stat read entries) root = (root, true) ∷ preorder_entries entries root

  pub preorder_entries : Entries → Text → List (Text × Bool)
  preorder_entries end root = []
  preorder_entries (file name rest) root =
      (path_join (root ∷ name ∷ []), false) ∷ preorder_entries rest root
  preorder_entries (sub name d rest) root =
      preorder d (path_join (root ∷ name ∷ [])) ++ preorder_entries rest root

-- Go on only after success.
abbrev pub stop_on_error :
    {W : Type 0} → Result (Unit {0}) × W → Eff W (Unit {0}) → Result (Unit {0}) × W
stop_on_error (ok u, w) next = next w
stop_on_error (err e, w) next = (err e, w)

-- No skipping.
abbrev pub NotSkip : Result (Unit {0}) → Type 0
NotSkip (ok u) = Unit
NotSkip (err e) = is_skip_dir e ≡ false

stop_on_error_assoc :
    {W : Type 0} (r : Result (Unit {0}) × W) (f g : Eff W (Unit {0}))
    → stop_on_error (stop_on_error r f) g ≡ stop_on_error r (λ w. stop_on_error (f w) g)
stop_on_error_assoc (ok u, w) f g = refl
stop_on_error_assoc (err e, w) f g = refl

and_then-stop :
    {W : Type 0} (visit : WalkFunc W) (r : Result (Unit {0}) × W) (f : Eff W (Unit {0}))
    → NotSkip r.0
    → and_then visit r f ≡ stop_on_error r f
and_then-stop visit (ok u, w) f h = refl
and_then-stop visit (err e, w) f h = rw h

or_continue-stop :
    {W : Type 0} (r : Result (Unit {0}) × W) (f : Eff W (Unit {0}))
    → NotSkip r.0
    → or_continue r f ≡ stop_on_error r f
or_continue-stop (ok u, w) f h = refl
or_continue-stop (err e, w) f h = rw h

some_none : {e : Error} → some e ≡ none → ⊥
some_none h = cc

module _ {W : Type 0} (visit : WalkFunc W) where
  -- The calls of the function, in order, up to the first that fails.
  unfoldable pub visit_all : List (Text × Bool) → Eff W (Unit {0})
  visit_all [] w = (ok tt, w)
  visit_all ((path, is_dir) ∷ rest) w =
      stop_on_error (visit path is_dir none w) (λ w'. visit_all rest w')

  pub visit_all-append :
      (xs ys : List (Text × Bool)) (w : W)
      → visit_all (xs ++ ys) w ≡ stop_on_error (visit_all xs w) (λ w'. visit_all ys w')
  unfolding visit_all
  visit_all-append [] ys w = refl
  visit_all-append ((path, is_dir) ∷ xs) ys w =
      ap (stop_on_error (visit path is_dir none w)) (fun_ext (λ w'. visit_all-append xs ys w'))
      ∙ sym (stop_on_error_assoc (visit path is_dir none w) _ _)

module _ {W : Type 0} (visit : WalkFunc W)
    (never : (path : Text) (is_dir : Bool) (w : W) → NotSkip (visit path is_dir none w).0) where
  NotSkip-visit_all : (xs : List (Text × Bool)) (w : W) → NotSkip (visit_all visit xs w).0
  unfolding visit_all
  NotSkip-visit_all [] w = tt
  NotSkip-visit_all ((path, is_dir) ∷ xs) w =
      go (visit path is_dir none w) (never path is_dir w) (λ w'. NotSkip-visit_all xs w')
    where
      go :
          (r : Result (Unit {0}) × W)
          → NotSkip r.0
          → ((w' : W) → NotSkip (visit_all visit xs w').0)
          → NotSkip (stop_on_error r (λ w'. visit_all visit xs w')).0
      go (ok u, w') h ih = ih w'
      go (err e, w') h ih = h

  mutual
    unfolding walk preorder IsSound visit_all

    walk-preorder :
        (d : Dir) (root : Text) (w : W)
        → IsSound d
        → walk visit d root w ≡ visit_all visit (preorder d root) w
    walk-preorder (dir none none none es) root w h =
        and_then-stop visit (visit root true none w) _ (never root true w)
        ∙ ap (stop_on_error (visit root true none w))
            (fun_ext (λ w'. walk_entries-preorder es root w' h.3))
    walk-preorder (dir none none (some e) es) root w h = absurd (some_none h.2)
    walk-preorder (dir none (some e) read es) root w h = absurd (some_none h.1)
    walk-preorder (dir (some e) stat read es) root w h = absurd (some_none h.0)

    walk_entries-preorder :
        (es : Entries) (root : Text) (w : W)
        → AreSound es
        → walk_entries visit es root w ≡ visit_all visit (preorder_entries es root) w
    walk_entries-preorder end root w h = refl
    walk_entries-preorder (file name rest) root w h =
        or_continue-stop _ _ (never (path_join (root ∷ name ∷ [])) false w)
        ∙ ap (stop_on_error (visit (path_join (root ∷ name ∷ [])) false none w))
            (fun_ext (λ w'. walk_entries-preorder rest root w' h))
    walk_entries-preorder (sub name d rest) root w h =
        ap (λ (r : Result (Unit {0}) × W). or_continue r (λ w'. walk_entries visit rest root w'))
          (walk-preorder d (path_join (root ∷ name ∷ [])) w h.0)
        ∙ or_continue-stop _ _ (NotSkip-visit_all (preorder d (path_join (root ∷ name ∷ []))) w)
        ∙ ap (stop_on_error (visit_all visit (preorder d (path_join (root ∷ name ∷ []))) w))
            (fun_ext (λ w'. walk_entries-preorder rest root w' h.1))
        ∙ sym (visit_all-append visit (preorder d (path_join (root ∷ name ∷ []))) _ w)

  pub walk-visit_all :
      (d : Dir) (root : Text) (w : W)
      → IsSound d
      → walk visit d root w ≡ visit_all visit (preorder d root) w
  walk-visit_all d root w h = walk-preorder d root w h
