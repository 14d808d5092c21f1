-- ===== src/Ui/Tree.antt =====
-- ui/tree.go: the source tree that is printed for a directory. What `ioutil.ReadDir` returns, for
-- the directory and all below it, is a tree; the printer `treeprint` gets another.
pub mod Laws
use bitcoinx.Base.{
  Text, List, [], ◌∷◌, Bool, true, false, eq_text, if◌then◌else◌, Result, ok, err, Error, Eff,
  ◌>>=◌,
}
use bitcoinx.Ui.Message.{Printing, verbose}

-- A directory that cannot be read, or its entries in the order of `ReadDir`.
mutual
  pub data Dir : Type 0 where
    unreadable : Error → Dir
    dir : Entries → Dir

  pub data Entries : Type 0 where
    end : Entries
    file : Text → Entries → Entries
    sub : Text → Dir → Entries → Entries

-- The nodes and branches added to a tree of the printer, in order.
pub data Printed : Type 0 where
  none : Printed
  node : Text → Printed → Printed
  branch : Text → Printed → Printed → Printed

-- The closure `shouldIgnore`.
unfoldable pub should_ignore : List Text → Text → Bool
should_ignore [] name = false
should_ignore (i ∷ ignore) name = if eq_text name i then true else should_ignore ignore name

-- What stands behind a node or a branch that was added.
abbrev pub then_node : Text → Result Printed → Result Printed
then_node name (ok rest) = ok (node name rest)
then_node name (err e) = err e

abbrev pub then_branch : Text → Printed → Result Printed → Result Printed
then_branch name inner (ok rest) = ok (branch name inner rest)
then_branch name inner (err e) = err e

module _ (ignore : List Text) where
  unfoldable mutual
    pub walk : Dir → Result Printed
    walk (unreadable e) = err e
    walk (dir entries) = walk_entries entries

    pub walk_entries : Entries → Result Printed
    walk_entries end = ok none
    walk_entries (file name rest) =
        let more = walk_entries rest in
        if should_ignore ignore name then more else then_node name more
    walk_entries (sub name d rest) =
        let more = walk_entries rest in
        let inner = walk d in
        if should_ignore ignore name
        then more
        else elim inner [ ok t ↦ then_branch name t more | err e ↦ err e ]

-- `read_all` is what the calls of `ioutil.ReadDir` return together, `render` gives the text of a tree
-- with its root, without the space around it, `printing` and `disabled` are those of the messages, and
-- `write` writes to the terminal.
pub record Printer (W A : Type 0) : Type 0 where
  pub read_all : Text → Eff W Dir
  pub render : Text → Printed → Text
  pub printing : Printing A
  pub disabled : Bool
  pub write : Text → W → W

module _ {W A : Type 0} (printer : Printer W A) where
  -- `Verbose` gets the tree as its format, and no arguments.
  unfoldable pub print_if : Text → Result Printed → Eff W (Unit {0})
  print_if p (ok t) w =
      (ok tt, printer.write (verbose printer.printing printer.disabled (printer.render p t) []) w)
  print_if p (err e) w = (err e, w)

  -- `Tree`
  unfoldable pub tree : Text → List Text → Eff W (Unit {0})
  tree p ignore = do d ← printer.read_all p; print_if p (walk ignore d)
