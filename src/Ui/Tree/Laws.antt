-- ===== src/Ui/Tree/Laws.antt =====
-- The printed tree is the tree of the directory without what is ignored.
use bitcoinx.Base.{
  Text, List, [], ◌∷◌, ◌++◌, if◌then◌else◌, ok, ◌≡◌, refl, arith, Bool-cases, inl, inr,
  Result-cases, ap,
}
use bitcoinx.Ui.Tree.{
  Dir, unreadable, dir, Entries, end, file, sub, Printed, none, node, branch, should_ignore,
  then_branch, walk, walk_entries,
}

-- All names that are printed, with the branches before what is in them.
unfoldable pub printed_names : Printed → List Text
printed_names none = []
printed_names (node name rest) = name ∷ printed_names rest
printed_names (branch name inner rest) = name ∷ (printed_names inner ++ printed_names rest)

module _ (ignore : List Text) where
  -- Every directory that is not ignored, nor below an ignored one, can be read.
  unfoldable mutual
    pub IsReadable : Dir → Type 0
    IsReadable (unreadable e) = ⊥
    IsReadable (dir entries) = AreReadable entries

    pub AreReadable : Entries → Type 0
    AreReadable end = Unit
    AreReadable (file name rest) = AreReadable rest
    AreReadable (sub name d rest) =
        if should_ignore ignore name then AreReadable rest else (IsReadable d × AreReadable rest)

  -- The names that a walk should show: those that are not ignored, nor below an ignored directory.
  unfoldable mutual
    pub shown_names : Dir → List Text
    shown_names (unreadable e) = []
    shown_names (dir entries) = shown_entries entries

    pub shown_entries : Entries → List Text
    shown_entries end = []
    shown_entries (file name rest) =
        let more = shown_entries rest in if should_ignore ignore name then more else name ∷ more
    shown_entries (sub name d rest) =
        let more = shown_entries rest in
        let inner = shown_names d in
        if should_ignore ignore name then more else name ∷ (inner ++ more)

  mutual
    unfolding walk IsReadable shown_names printed_names

    walk-shown_names :
        (d : Dir)
        → IsReadable d
        → (t : Printed) × (walk ignore d ≡ ok t) × (printed_names t ≡ shown_names d)
    walk-shown_names (unreadable e) h = absurd h
    walk-shown_names (dir entries) h = walk_entries-shown entries h

    walk_entries-shown :
        (es : Entries)
        → AreReadable es
        → (t : Printed) × (walk_entries ignore es ≡ ok t) × (printed_names t ≡ shown_entries es)
    walk_entries-shown end h = (none, refl, refl)
    walk_entries-shown (file name rest) h = elim (Bool-cases (should_ignore ignore name)) [
      | inl hidden ↦ rw hidden (walk_entries-shown rest h)
      | inr listed ↦
          let (t, e, k) = walk_entries-shown rest h in
          rw listed (node name t, rw e, ap (λ (l : List Text). name ∷ l) k)
    ]
    walk_entries-shown (sub name d rest) h = elim (Bool-cases (should_ignore ignore name)) [
      | inl hidden ↦ rw hidden (walk_entries-shown rest (rw hidden at h))
      | inr listed ↦
          let both = rw listed at h in
          let (u, f, l) = walk-shown_names d both.0 in
          let (t, e, k) = walk_entries-shown rest both.1 in
          rw listed (branch name u t, rw (f, e, then_branch), rw (l, k))
    ]

  -- If every directory that is not ignored can be read, the walk succeeds, and the printed names
  -- are, in order, those of all files and directories that are neither ignored nor below an ignored
  -- directory.
  pub walk-shown :
      (d : Dir)
      → IsReadable d
      → (t : Printed) × (walk ignore d ≡ ok t) × (printed_names t ≡ shown_names d)
  walk-shown d h = walk-shown_names d h

  mutual
    unfolding walk IsReadable

    walk-IsReadable : (d : Dir) (t : Printed) → walk ignore d ≡ ok t → IsReadable d
    walk-IsReadable (unreadable e) t h = cc
    walk-IsReadable (dir entries) t h = walk_entries-AreReadable entries t h

    walk_entries-AreReadable :
        (es : Entries) (t : Printed) → walk_entries ignore es ≡ ok t → AreReadable es
    walk_entries-AreReadable end t h = tt
    walk_entries-AreReadable (file name rest) t h = elim (Result-cases (walk_entries ignore rest)) [
      | inl (u, e) ↦ walk_entries-AreReadable rest u e
      | inr (x, e) ↦ absurd (ground arith)
    ]
    walk_entries-AreReadable (sub name d rest) t h =
        elim (Result-cases (walk_entries ignore rest)) [
          | inl (u, e) ↦ elim (Bool-cases (should_ignore ignore name)) [
            | inl hidden ↦ rw hidden (walk_entries-AreReadable rest u e)
            | inr listed ↦ rw listed (elim (Result-cases (walk ignore d)) [
              | inl (v, f) ↦ (walk-IsReadable d v f, walk_entries-AreReadable rest u e)
              | inr (x, f) ↦ absurd (ground arith)
            ])
          ]
          | inr (x, e) ↦ absurd (ground arith)
        ]

  -- The walk fails if a directory that is not ignored, nor below an ignored one, cannot be read.
  pub walk-IsReadable' : (d : Dir) (t : Printed) → walk ignore d ≡ ok t → IsReadable d
  walk-IsReadable' d t h = walk-IsReadable d t h
