-- ===== src/Node/Update.antt =====
-- node/init.go, `updateConfig`: variables are set in the lines of a configuration file. The Go map
-- of variables is a list, in the order in which the loop meets them. The loop over the map is run anew
-- for each line, in any order: `update_config_in` has an order for each line, and `update_config` is the
-- run in which they are all the same.
pub mod Laws
pub mod Again
pub mod Order
pub mod Sets
use bitcoinx.Base.{
  ℕ, suc, Text, lit, List, [], ◌∷◌, ◌++◌, Bool, true, false, Option, none, some, Result, ok, err,
  Error,
}
use bitcoinx.Base.{if◌then◌else◌, has_prefix, Eff, ◌>>=◌, ◌>>◌, fail, map}
use bitcoinx.Base.Lines.{scan_lines, print_lines}
use bitcoinx.Files.{Files}

abbrev pub Vars : Type 0
Vars = List (Text × Text)

abbrev pub equals : Text
equals = lit " = "

-- `fmt.Sprintf("%s = %s", k, v)`
unfoldable pub assignment : Text → Text → Text
assignment k v = k ++ (equals ++ v)

-- The test of the loop, which looks for the key at the front of the line.
unfoldable pub matches : Text → Text → Bool
matches line k = has_prefix (line ++ equals) k

-- The loop over the variables, on one line.
unfoldable pub update_line : Vars → Text → Text
update_line [] line = line
update_line ((k, v) ∷ vars) line =
    update_line vars (if matches line k then assignment k v else line)

-- The loop over the lines; the variables come in the order `orders i` for line `i`.
unfoldable pub update_lines : (ℕ → Vars) → ℕ → List Text → List Text
update_lines orders i [] = []
update_lines orders i (line ∷ lines) =
    update_line (orders i) line ∷ update_lines orders (suc i) lines

module _ {W : Type 0} (fs : Files W) where
  unfoldable pub rewrite_in : Text → (ℕ → Vars) → List Text × Option Error → Eff W (Unit {0})
  rewrite_in file orders (lines, some e) = fail e
  rewrite_in file orders (lines, none) =
      fs.create file >> fs.put file (print_lines (update_lines orders 0 lines))

  unfoldable pub update_config_in : Text → (ℕ → Vars) → Eff W (Unit {0})
  update_config_in file orders = do
    config ← fs.read file
    rewrite_in file orders (scan_lines config)

  -- The file is only opened for writing after all of it was scanned without an error.
  unfoldable pub rewrite : Text → Vars → List Text × Option Error → Eff W (Unit {0})
  rewrite file vars (lines, some e) = fail e
  rewrite file vars (lines, none) =
      fs.create file >> fs.put file (print_lines (map (update_line vars) lines))

  unfoldable pub update_config : Text → Vars → Eff W (Unit {0})
  update_config file vars = do config ← fs.read file; rewrite file vars (scan_lines config)
