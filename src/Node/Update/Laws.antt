-- ===== src/Node/Update/Laws.antt =====
-- What `updateConfig` does to a line and to a file, when no key begins with another key.
use bitcoinx.Base.{
  Text, List, [], ◌∷◌, ◌++◌, true, false, Option, none, some, ok, err, Error, All, ◌≡◌, refl, ◌∙◌,
  ap, arith, inl, inr, ◌⊎◌, Bool-cases,
}
use bitcoinx.Base.{
  >>=-ok, if◌then◌else◌, has_prefix, map, has_prefix-append, has_prefix_compare, eq_text, sym,
}
use mathlib.Core.List.{append_assoc}
use bitcoinx.Base.Lines.{scan_lines, print_lines, IsLine, scan_lines-print_lines}
use bitcoinx.Files.{Files, IsLawful, write_file}
use bitcoinx.Files.Laws.{content-write_file}
use bitcoinx.Node.Update.{Vars, equals, assignment, matches, update_line, update_config, rewrite}

-- Neither key begins with the other.
abbrev pub Apart : Text → Text × Text → Type 0
Apart k (j, _) = (has_prefix k j ≡ false) × (has_prefix j k ≡ false)

-- No key begins with another one.
abbrev pub PrefixFree : Vars → Type 0
PrefixFree [] = Unit
PrefixFree ((k, v) ∷ vars) = All (Apart k) vars × PrefixFree vars

-- The variable is in the list.
abbrev pub Listed : Text → Text → Vars → Type 0
Listed k v [] = ⊥
Listed k v ((j, w) ∷ vars) = ((j ≡ k) × (w ≡ v)) ⊎ Listed k v vars

pub matches-assignment : (k v : Text) → matches (assignment k v) k ≡ true
unfolding matches assignment
matches-assignment k v =
    rw (append_assoc k (equals ++ v) equals) (has_prefix-append k ((equals ++ v) ++ equals))

-- A line that matches one key matches no key apart from it.
matches-Apart :
    (line k : Text) (j : Text × Text) → matches line k ≡ true → Apart k j → matches line j.0 ≡ false
unfolding matches
matches-Apart line k j h a = elim (Bool-cases (has_prefix (line ++ equals) j.0)) [
  | inr other ↦ other
  | inl both ↦ absurd (clash (has_prefix_compare (line ++ equals) k j.0 h both))
]
  where
    clash : (has_prefix k j.0 ≡ true) ⊎ (has_prefix j.0 k ≡ true) → ⊥
    clash c = ground arith

-- A line that matches none of the keys stays as it is.
pub update_line-unmatched :
    (vars : Vars) (line : Text)
    → All (λ (k, _). matches line k ≡ false) vars
    → update_line vars line ≡ line
unfolding update_line
update_line-unmatched [] line h = refl
update_line-unmatched ((k, v) ∷ vars) line h = rw (h.0) (update_line-unmatched vars line h.1)

unmatched :
    (vars : Vars) (line k : Text)
    → matches line k ≡ true
    → All (Apart k) vars
    → All (λ (j, _). matches line j ≡ false) vars
unmatched [] line k h a = tt
unmatched (j ∷ vars) line k h a = (matches-Apart line k j h a.0, unmatched vars line k h a.1)

Apart-Listed : (j k v : Text) (vars : Vars) → All (Apart j) vars → Listed k v vars → Apart k (j, v)
Apart-Listed j k v [] a m = absurd m
Apart-Listed j k v ((i, w) ∷ vars) a (inl e) = let b = a.0 in (rw (← e.0) b.1, rw (← e.0) b.0)
Apart-Listed j k v ((i, w) ∷ vars) a (inr m) = Apart-Listed j k v vars a.1 m

-- When no key begins with another one, a line that begins with a listed key becomes the assignment
-- of that key's value, at whatever place of the list the key stands.
pub update_line-matched :
    (vars : Vars) (line k v : Text)
    → PrefixFree vars
    → Listed k v vars
    → matches line k ≡ true
    → update_line vars line ≡ assignment k v
unfolding update_line
update_line-matched [] line k v free m h = absurd m
update_line-matched ((j, w) ∷ vars) line k v free (inl e) h =
    rw (e.0, h, e.1)
      (update_line-unmatched vars (assignment k v)
        (unmatched vars (assignment k v) k (matches-assignment k v) (rw (e.0) at free.0)))
update_line-matched ((j, w) ∷ vars) line k v free (inr m) h =
    rw (matches-Apart line k (j, v) h (Apart-Listed j k v vars free.0 m))
      (update_line-matched vars line k v free.1 m h)

-- Either no key matches the line, or a listed one does.
pub find_match :
    (vars : Vars) (line : Text)
    → All (λ (k, _). matches line k ≡ false) vars
      ⊎ ((k : Text) × (v : Text) × Listed k v vars × (matches line k ≡ true))
find_match [] line = inl tt
find_match ((k, v) ∷ vars) line = elim (Bool-cases (matches line k)) [
  | inl here ↦ inr (k, v, inl (refl, refl), here)
  | inr not_here ↦ elim (find_match vars line) [
    | inl nowhere ↦ inl (not_here, nowhere)
    | inr (j, w, m, h) ↦ inr (j, w, inr m, h)
  ]
]

-- When no key begins with another one, setting the variables a second time changes nothing.
pub update_line_idem :
    (vars : Vars) (line : Text)
    → PrefixFree vars
    → update_line vars (update_line vars line) ≡ update_line vars line
update_line_idem vars line free = elim (find_match vars line) [
  | inl nowhere ↦ ap (update_line vars) (update_line-unmatched vars line nowhere)
  | inr (k, v, m, h) ↦
      rw (update_line-matched vars line k v free m h)
        (update_line-matched vars (assignment k v) k v free m (matches-assignment k v))
]

none_of :
    (vars vars' : Vars) (line : Text)
    → All (λ (k, _). matches line k ≡ false) vars
    → ((k v : Text) → Listed k v vars' → Listed k v vars)
    → All (λ (k, _). matches line k ≡ false) vars'
none_of vars [] line h sub = tt
none_of vars ((k, v) ∷ vars') line h sub =
    (at vars (sub k v (inl (refl, refl))) h, none_of vars vars' line h (λ j w m. sub j w (inr m)))
  where
    at :
        (us : Vars)
        → Listed k v us
        → All (λ (j, _). matches line j ≡ false) us
        → matches line k ≡ false
    at [] m a = absurd m
    at ((j, w) ∷ us) (inl e) a = rw (e.0) at a.0
    at ((j, w) ∷ us) (inr m) a = at us m a.1

-- The order in which the loop meets the variables does not matter, when no key begins with another
-- one: two lists of the same variables do the same to every line.
pub update_line-order :
    (vars vars' : Vars) (line : Text)
    → PrefixFree vars
    → PrefixFree vars'
    → ((k v : Text) → Listed k v vars → Listed k v vars')
    → ((k v : Text) → Listed k v vars' → Listed k v vars)
    → update_line vars line ≡ update_line vars' line
update_line-order vars vars' line free free' into back = elim (find_match vars line) [
  | inl nowhere ↦
      update_line-unmatched vars line nowhere
      ∙ sym (update_line-unmatched vars' line (none_of vars vars' line nowhere back))
  | inr (k, v, m, h) ↦
      update_line-matched vars line k v free m h
      ∙ sym (update_line-matched vars' line k v free' (into k v m) h)
]

-- A line of another variable, whose name is longer and begins with a listed key, is overwritten by
-- the assignment of that key.
pub update_line-longer_name :
    (vars : Vars) (k v more : Text)
    → PrefixFree vars
    → Listed k v vars
    → update_line vars (k ++ more) ≡ assignment k v
update_line-longer_name vars k v more free m =
    update_line-matched vars (k ++ more) k v free m (begins k more)
  where
    begins : (k more : Text) → matches (k ++ more) k ≡ true
    begins k more =
        unfold matches in rw (append_assoc k more equals) (has_prefix-append k (more ++ equals))

module _ {W : Type 0} (fs : Files W) {content : W → Text → Option Text}
    (lawful : IsLawful fs content) where
  -- The content of every file after an update that succeeds.
  pub update_config-content :
      (file q : Text) (vars : Vars) (ls : List Text) (w : W)
      → All IsLine ls
      → content w file ≡ some (print_lines ls)
      → (update_config fs file vars w).0 ≡ ok tt
      → content (update_config fs file vars w).1 q
        ≡ (if eq_text file q then some (print_lines (map (update_line vars) ls)) else content w q)
  update_config-content file q vars ls w good held done =
      rw step (content-write_file fs lawful file _ q w (rw step at done))
    where
      step :
          update_config fs file vars w
          ≡ write_file fs file (print_lines (map (update_line vars) ls)) w
      step =
          unfold update_config in
          (>>=-ok (fs.read file) (λ d. rewrite fs file vars (scan_lines d))
              (lawful.read-some file (print_lines ls) w held)
            ∙ rw (scan_lines-print_lines ls good) (unfold rewrite in refl))

  -- When the scanner gives up, the update fails with its error and changes no file.
  pub update_config-failed :
      (file d : Text) (vars : Vars) (w : W) {e : Error}
      → content w file ≡ some d
      → (scan_lines d).1 ≡ some e
      → update_config fs file vars w ≡ (err e, w)
  unfolding update_config
  update_config-failed file d vars w held bad =
      >>=-ok (fs.read file) (λ d. rewrite fs file vars (scan_lines d))
        (lawful.read-some file d w held)
      ∙ go (scan_lines d) bad
    where
      go :
          (r : List Text × Option Error) {e : Error}
          → r.1 ≡ some e
          → rewrite fs file vars r w ≡ (err e, w)
      go (lines, none) h = cc
      go (lines, some x) h = unfold rewrite in ground arith
