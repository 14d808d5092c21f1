-- ===== src/Ui/Tests.antt =====
-- The live line on small terminals, and a source tree with an ignored directory.
use bitcoinx.Base.{Text, lit, List, [], ◌∷◌, ok, external, ◌≡◌, refl, eq_text}
use bitcoinx.Ui.Runes.{trim_space}
use bitcoinx.Ui.Tree.{Dir, dir, unreadable, end, file, sub, none, node, walk, should_ignore}
use bitcoinx.Ui.Tree.Laws.{IsReadable}

abbrev ignored : List Text
ignored = lit "k8s" ∷ []

abbrev tree : Dir
tree = dir (file (lit "a") (sub (lit "k8s") (unreadable (external 13)) (file (lit "b") end)))

tree-IsReadable : IsReadable ignored tree
unfolding IsReadable should_ignore eq_text
tree-IsReadable = tt

tree-walk : walk ignored tree ≡ ok (node (lit "a") (node (lit "b") none))
unfolding walk should_ignore eq_text
tree-walk = refl

blank : trim_space (lit " ") ≡ []
unfolding trim_space
blank = refl
