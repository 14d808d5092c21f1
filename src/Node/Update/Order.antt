-- ===== src/Node/Update/Order.antt =====
-- node/init.go, `updateConfig`: its variables are a Go map, over which a loop ranges in any order. The
-- map is the listings of its variables with the order forgotten.
use mathlib.Core.Quot
use mathlib.Core.Quot.{Quot}
use bitcoinx.Base.{
  ℕ, suc, [], ◌∷◌, Text, List, Option, none, some, Error, Eff, ◌>>=◌, ◌>>◌, fail, map, ◌≡◌, refl,
  ap, sym, ◌∙◌,
}
use bitcoinx.Base.Lines.{scan_lines, print_lines}
use bitcoinx.Files.{Files}
use bitcoinx.Node.Update.{
  Vars, update_line, update_config, rewrite, update_lines, rewrite_in, update_config_in,
}
use bitcoinx.Node.Update.Laws.{PrefixFree, Listed, update_line-order}

-- The variables in an order, where no key begins with another one.
abbrev pub Listing : Type 0
Listing = (vars : Vars) × PrefixFree vars

-- Every variable of the one list is in the other.
abbrev pub Within : Vars → Vars → Type 0
Within vars vars' = (k v : Text) → Listed k v vars → Listed k v vars'

abbrev SameVars : Listing → Listing → Type 0
SameVars (vars, _) (vars', _) = Within vars vars' × Within vars' vars

abbrev GoMap : Type 0
GoMap = Quot SameVars

Text-IsSet : IsSet Text
Text-IsSet = hlevel

-- What the map does to a line.
unfoldable on_line : GoMap → Text → Text
on_line m line =
    Quot.lift Text-IsSet (λ vs. update_line vs.0 line)
      (λ us vs same. update_line-order us.0 vs.0 line us.1 vs.1 same.0 same.1) m

-- Lines that each have their own order of the same map.
update_lines-on_line :
    (orders : ℕ → Vars) (m : GoMap) (free : (i : ℕ) → PrefixFree (orders i))
    → (same : (i : ℕ) → Quot.mk (orders i, free i) ≡ m) (i : ℕ) (lines : List Text)
    → update_lines orders i lines ≡ map (on_line m) lines
unfolding update_lines
update_lines-on_line orders m free same i [] = refl
update_lines-on_line orders m free same i (line ∷ lines) =
    ap (λ (t : Text). t ∷ update_lines orders (suc i) lines)
      (line_first ∙ ap (λ (x : GoMap). on_line x line) (same i))
    ∙ ap (λ (ts : List Text). on_line m line ∷ ts)
        (update_lines-on_line orders m free same (suc i) lines)
  where
    line_first : update_line (orders i) line ≡ on_line (Quot.mk (orders i, free i)) line
    line_first = unfold on_line in refl

module _ {W : Type 0} (fs : Files W) where
  unfoldable write_with : Text → GoMap → List Text × Option Error → Eff W (Unit {0})
  write_with file m (lines, some e) = fail e
  write_with file m (lines, none) =
      fs.create file >> fs.put file (print_lines (map (on_line m) lines))

  -- The update by a map.
  unfoldable update_by : Text → GoMap → Eff W (Unit {0})
  update_by file m = do config ← fs.read file; write_with file m (scan_lines config)

  rewrite-write_with :
      (file : Text) (vars : Vars) (free : PrefixFree vars) (r : List Text × Option Error)
      → rewrite fs file vars r ≡ write_with file (Quot.mk (vars, free)) r
  unfolding rewrite write_with on_line
  rewrite-write_with file vars free (lines, some e) = refl
  rewrite-write_with file vars free (lines, none) = refl

  -- The loop over one of its listings does that.
  update_config-update_by :
      (file : Text) (vars : Vars) (free : PrefixFree vars)
      → update_config fs file vars ≡ update_by file (Quot.mk (vars, free))
  unfolding update_config update_by
  update_config-update_by file vars free =
      ap
        (λ (f : List Text × Option Error → Eff W (Unit {0})).
          fs.read file >>= λ config. f (scan_lines config))
        (λ i r. rewrite-write_with file vars free r i)

  rewrite_in-write_with :
      (file : Text) (orders : ℕ → Vars) (m : GoMap) (free : (i : ℕ) → PrefixFree (orders i))
      → (same : (i : ℕ) → Quot.mk (orders i, free i) ≡ m) (r : List Text × Option Error)
      → rewrite_in fs file orders r ≡ write_with file m r
  unfolding rewrite_in write_with
  rewrite_in-write_with file orders m free same (lines, some e) = refl
  rewrite_in-write_with file orders m free same (lines, none) =
      ap (λ (ls : List Text). fs.create file >> fs.put file (print_lines ls))
        (update_lines-on_line orders m free same 0 lines)

  update_config_in-update_by :
      (file : Text) (orders : ℕ → Vars) (m : GoMap) (free : (i : ℕ) → PrefixFree (orders i))
      → (same : (i : ℕ) → Quot.mk (orders i, free i) ≡ m)
      → update_config_in fs file orders ≡ update_by file m
  unfolding update_config_in update_by
  update_config_in-update_by file orders m free same =
      ap
        (λ (f : List Text × Option Error → Eff W (Unit {0})).
          fs.read file >>= λ config. f (scan_lines config))
        (λ i r. rewrite_in-write_with file orders m free same r i)

  -- When no key begins with another one: a run of the update that meets the variables in another
  -- order for each line, whatever these orders are, does the same to every file in every state, errors
  -- included, as the run that meets them in one given order for all lines.
  pub update_config-order :
      (file : Text) (orders : ℕ → Vars) (vars : Vars)
      → (free : (i : ℕ) → PrefixFree (orders i)) → PrefixFree vars
      → ((i : ℕ) → Within (orders i) vars)
      → ((i : ℕ) → Within vars (orders i))
      → update_config_in fs file orders ≡ update_config fs file vars
  update_config-order file orders vars free free' into back =
      update_config_in-update_by file orders (Quot.mk (vars, free')) free
        (λ i. Quot.sound (into i, back i))
      ∙ sym (update_config-update_by file vars free')
