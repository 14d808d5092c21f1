-- ===== src/Httpfs/Keeps.antt =====
-- What every call of the function keeps, a walk keeps, whether or not it succeeds.
use bitcoinx.Base.{
  Text, Bool, true, false, Option, none, some, Result, ok, err, Error, is_skip_dir, Eff, List, [],
  ◌∷◌, ◌++◌, All, Bool-cases, inl, inr,
}
use bitcoinx.GoPath.{path_join}
use bitcoinx.Httpfs.{
  Dir, dir, Entries, end, file, sub, WalkFunc, walk, walk_entries, or_continue, and_then,
}
use bitcoinx.Httpfs.Laws.{preorder, preorder_entries}

All-before {ℓ κ} : {A : Type ℓ} (P : A → Type κ) (xs ys : List A) → All P (xs ++ ys) → All P xs
All-before P [] ys h = tt
All-before P (x ∷ xs) ys h = (h.0, All-before P xs ys h.1)

All-behind {ℓ κ} : {A : Type ℓ} (P : A → Type κ) (xs ys : List A) → All P (xs ++ ys) → All P ys
All-behind P [] ys h = h
All-behind P (x ∷ xs) ys h = All-behind P xs ys h.1

module _ {W : Type 0} (visit : WalkFunc W) (P : W → Type 0) where
  -- The call on a path keeps `P`, whatever the error of the listing.
  abbrev pub KeepsAt : Text × Bool → Type 0
  KeepsAt (path, is_dir) = (e : Option Error) (w : W) → P w → P (visit path is_dir e w).1

  or_continue-keeps :
      (r : Result (Unit {0}) × W) (next : Eff W (Unit {0}))
      → P r.1
      → ((w : W) → P w → P (next w).1)
      → P (or_continue r next).1
  or_continue-keeps (ok u, w) next h k = k w h
  or_continue-keeps (err e, w) next h k = elim (Bool-cases (is_skip_dir e)) [
    | inl skip ↦ rw skip (k w h)
    | inr fail ↦ rw fail h
  ]

  and_then-keeps :
      (r : Result (Unit {0}) × W) (next : Eff W (Unit {0}))
      → P r.1
      → ((w : W) → P w → P (next w).1)
      → P (and_then visit r next).1
  and_then-keeps (ok u, w) next h k = k w h
  and_then-keeps (err e, w) next h k = elim (Bool-cases (is_skip_dir e)) [
    | inl skip ↦ rw skip h
    | inr fail ↦ rw fail h
  ]

  mutual
    unfolding walk preorder

    walk_keeps :
        (d : Dir) (root : Text) (w : W)
        → All KeepsAt (preorder d root)
        → P w
        → P (walk visit d root w).1
    walk_keeps (dir (some e) stat read entries) root w k h = h
    walk_keeps (dir none (some e) read entries) root w k h = h
    walk_keeps (dir none none read entries) root w k h =
        and_then-keeps (visit root true read w) (λ w'. walk_entries visit entries root w')
          (k.0 read w h) (λ w' h'. walk_entries_keeps entries root w' k.1 h')

    walk_entries_keeps :
        (es : Entries) (root : Text) (w : W)
        → All KeepsAt (preorder_entries es root)
        → P w
        → P (walk_entries visit es root w).1
    walk_entries_keeps end root w k h = h
    walk_entries_keeps (file name rest) root w k h =
        or_continue-keeps (visit (path_join (root ∷ name ∷ [])) false none w)
          (λ w'. walk_entries visit rest root w') (k.0 none w h)
          (λ w' h'. walk_entries_keeps rest root w' k.1 h')
    walk_entries_keeps (sub name d rest) root w k h =
        or_continue-keeps (walk visit d (path_join (root ∷ name ∷ [])) w)
          (λ w'. walk_entries visit rest root w')
          (walk_keeps d (path_join (root ∷ name ∷ [])) w
            (All-before KeepsAt (preorder d (path_join (root ∷ name ∷ []))) _ k) h)
          (λ w' h'.
            walk_entries_keeps rest root w'
              (All-behind KeepsAt (preorder d (path_join (root ∷ name ∷ []))) _ k) h')

  -- What the function keeps at every file and directory, the walk keeps, whichever calls fail.
  pub walk-keeps :
      (d : Dir) (root : Text) (w : W)
      → All KeepsAt (preorder d root)
      → P w
      → P (walk visit d root w).1
  walk-keeps d root w k h = walk_keeps d root w k h
