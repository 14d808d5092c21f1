-- ===== src/Node/Update/Sets.antt =====
-- node/init.go, `updateConfig`: what the file holds afterwards, said without the loop over the
-- variables.
use bitcoinx.Base.{
  Text, lit, List, [], ◌∷◌, ◌++◌, true, false, Option, some, ok, All, ◌≡◌, ◌⊎◌, inl, inr, map,
  has_prefix, if◌then◌else◌, eq_text,
}
use bitcoinx.Base.Lines.{print_lines, IsLine}
use bitcoinx.Files.{Files, IsLawful}
use bitcoinx.Node.Update.{Vars, update_line, update_config, matches, assignment}
use bitcoinx.Node.Update.Laws.{
  PrefixFree, Listed, find_match, update_line-matched, update_line-unmatched, update_config-content,
}

-- The line, with ` = ` behind it, begins with the key.
abbrev pub Begins : Text → Text → Type 0
Begins line k = has_prefix (line ++ lit " = ") k ≡ true

-- What is to become of a line: the assignment of the variable with whose key it begins, or the line
-- itself, if there is none.
abbrev pub Becomes : Vars → Text → Text → Type 0
Becomes vars line line' =
    ((k : Text) × (v : Text) × Listed k v vars × Begins line k × (line' ≡ k ++ (lit " = " ++ v)))
    ⊎ (All (λ (k, _). has_prefix (line ++ lit " = ") k ≡ false) vars × (line' ≡ line))

-- The same for each of the lines.
abbrev pub AllBecome : Vars → List Text → List Text → Type 0
AllBecome vars [] [] = Unit
AllBecome vars [] (l' ∷ ls') = ⊥
AllBecome vars (l ∷ ls) [] = ⊥
AllBecome vars (l ∷ ls) (l' ∷ ls') = Becomes vars l l' × AllBecome vars ls ls'

update_line-Becomes :
    (vars : Vars) (line : Text) → PrefixFree vars → Becomes vars line (update_line vars line)
unfolding matches assignment
update_line-Becomes vars line free = elim (find_match vars line) [
  | inl nowhere ↦ inr (nowhere, update_line-unmatched vars line nowhere)
  | inr (k, v, m, h) ↦ inl (k, v, m, h, update_line-matched vars line k v free m h)
]

map-AllBecome :
    (vars : Vars) (ls : List Text) → PrefixFree vars → AllBecome vars ls (map (update_line vars) ls)
map-AllBecome vars [] free = tt
map-AllBecome vars (l ∷ ls) free = (update_line-Becomes vars l free, map-AllBecome vars ls free)

module _ {W : Type 0} (fs : Files W) {content : W → Text → Option Text}
    (lawful : IsLawful fs content) where
  -- When no key begins with another one, the file holds whole lines, of a length that the scanner
  -- takes, and the update succeeds: the file then holds as many lines, in the same order, of which each
  -- that, with ` = ` behind it, begins with a key has become the assignment of that variable, while each
  -- other one is as before; and no other file changes.
  pub update_config-AllBecome :
      (file q : Text) (vars : Vars) (ls : List Text) (w : W)
      → PrefixFree vars
      → All IsLine ls
      → content w file ≡ some (print_lines ls)
      → (update_config fs file vars w).0 ≡ ok tt
      → (ls' : List Text) × AllBecome vars ls ls'
        × (content (update_config fs file vars w).1 q
            ≡ (if eq_text file q then some (print_lines ls') else content w q))
  update_config-AllBecome file q vars ls w free good held done = (
    map (update_line vars) ls,
    map-AllBecome vars ls free,
    update_config-content fs lawful file q vars ls w good held done,
  )
