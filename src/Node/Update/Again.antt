-- ===== src/Node/Update/Again.antt =====
-- What a second run of `updateConfig` leaves of the first one.
use bitcoinx.Base.{
  Text, List, [], ◌∷◌, Option, some, ok, All, ◌≡◌, refl, ◌∙◌, ap, inl, inr, Bool-cases, map,
  eq_text_refl, sym,
}
use bitcoinx.Base.Lines.{print_lines, IsLine}
use bitcoinx.Files.{Files, IsLawful}
use bitcoinx.Node.Update.{Vars, assignment, matches, update_line, update_config}
use bitcoinx.Node.Update.Laws.{
  PrefixFree, Listed, update_line-matched, update_line-unmatched, find_match, matches-assignment,
  update_config-content,
}

-- Every key of the first list is a key of the second one.
abbrev pub Covers : Vars → Vars → Type 0
Covers vars vars' = (k v : Text) → Listed k v vars → (v' : Text) × Listed k v' vars'

-- The assignments of the variables are lines.
abbrev pub AreLines : Vars → Type 0
AreLines = All (λ (k, v). IsLine (assignment k v))

-- When the keys that are set later include those that were set before, nothing is left of the
-- values that were set before.
pub update_line-replaces :
    (vars vars' : Vars) (line : Text)
    → PrefixFree vars
    → PrefixFree vars'
    → Covers vars vars'
    → update_line vars' (update_line vars line) ≡ update_line vars' line
update_line-replaces vars vars' line free free' covers = elim (find_match vars line) [
  | inl nowhere ↦ ap (update_line vars') (update_line-unmatched vars line nowhere)
  | inr (k, v, m, h) ↦
      let (v', m') = covers k v m in
      ap (update_line vars') (update_line-matched vars line k v free m h)
      ∙ update_line-matched vars' (assignment k v) k v' free' m' (matches-assignment k v)
      ∙ sym (update_line-matched vars' line k v' free' m' h)
]

lines-replaces :
    (vars vars' : Vars) (ls : List Text)
    → PrefixFree vars
    → PrefixFree vars'
    → Covers vars vars'
    → map (update_line vars') (map (update_line vars) ls) ≡ map (update_line vars') ls
lines-replaces vars vars' [] free free' covers = refl
lines-replaces vars vars' (l ∷ ls) free free' covers =
    rw (update_line-replaces vars vars' l free free' covers) (
      ap (λ (ms : List Text). update_line vars' l ∷ ms)
        (lines-replaces vars vars' ls free free' covers))

update_line-IsLine :
    (vars : Vars) (line : Text) → AreLines vars → IsLine line → IsLine (update_line vars line)
unfolding update_line
update_line-IsLine [] line h good = good
update_line-IsLine ((k, v) ∷ vars) line h good = elim (Bool-cases (matches line k)) [
  | inl e ↦ rw e (update_line-IsLine vars (assignment k v) h.1 h.0)
  | inr e ↦ rw e (update_line-IsLine vars line h.1 good)
]

-- The lines of the file stay lines.
pub lines-AreLines :
    (vars : Vars) (ls : List Text)
    → AreLines vars
    → All IsLine ls
    → All IsLine (map (update_line vars) ls)
lines-AreLines vars [] h good = tt
lines-AreLines vars (l ∷ ls) h good =
    (update_line-IsLine vars l h good.0, lines-AreLines vars ls h good.1)

module _ {W : Type 0} (fs : Files W) {content : W → Text → Option Text}
    (lawful : IsLawful fs content) where
  -- When a file that was updated is updated again with success, and the keys of the second time
  -- include those of the first, it is as if it had only been updated the second time.
  pub update_config-replaces :
      (file : Text) (vars vars' : Vars) (ls : List Text) (v : W)
      → PrefixFree vars
      → PrefixFree vars'
      → Covers vars vars'
      → AreLines vars
      → All IsLine ls
      → content v file ≡ some (print_lines (map (update_line vars) ls))
      → (update_config fs file vars' v).0 ≡ ok tt
      → content (update_config fs file vars' v).1 file
        ≡ some (print_lines (map (update_line vars') ls))
  update_config-replaces file vars vars' ls v free free' covers own good before done =
      update_config-content fs lawful file file vars' (map (update_line vars) ls) v
        (lines-AreLines vars ls own good) before done
      ∙ rw (eq_text_refl file, lines-replaces vars vars' ls free free' covers) refl
