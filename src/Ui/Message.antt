-- ===== src/Ui/Message.antt =====
-- ui/ui.go: the messages. The packages fmt and colorstring are parameters.
pub mod Parts
pub mod Laws
mod Tests
use bitcoinx.Base.{Text, lit, List, [], ◌∷◌, ◌++◌, Bool, true, false}

-- `sprintf` is `fmt.Sprintf`, and what `fmt.Printf` writes; `text` is a text as an argument of it.
-- `color` is the method `Color` of `colorize`, given its field `Disable`.
pub record Printing (A : Type 0) : Type 0 where
  pub sprintf : Text → List A → Text
  pub text : Text → A
  pub color : Bool → Text → Text

-- The field `Disable`, after `EnableColors`.
unfoldable pub enable_colors : Bool → Bool
enable_colors true = false
enable_colors false = true

-- "✔" and "✗"
abbrev pub check_mark : Text
check_mark = 0xe2 ∷ 0x9c ∷ 0x94 ∷ []

abbrev pub cross : Text
cross = 0xe2 ∷ 0x9c ∷ 0x97 ∷ []

module _ {A : Type 0} (printing : Printing A) (disabled : Bool) where
  open printing use {sprintf, text, color}

  -- What is written to the terminal.
  unfoldable pub info : Text → List A → Text
  info msg args =
      sprintf (color disabled (lit "[bold][blue]==> [reset][bold]%s\n"))
        (text (sprintf msg args) ∷ [])

  unfoldable pub verbose : Text → List A → Text
  verbose msg args = sprintf (color disabled (lit "[dim]%s\n")) (text (sprintf msg args) ∷ [])

  unfoldable pub success : Text → List A → Text
  success msg args =
      sprintf (color disabled (lit "[bold][green]" ++ (check_mark ++ lit "[reset][bold] %s\n")))
        (text (sprintf msg args) ∷ [])

  unfoldable pub error : Text → List A → Text
  error msg args =
      sprintf (color disabled (lit "[bold][red]" ++ (cross ++ lit "[reset][bold] %s\n")))
        (text (sprintf msg args) ∷ [])

  unfoldable pub small : Text → Text
  small msg = color disabled (lit "[dim]" ++ msg)

  unfoldable pub emphasize : Text → Text
  emphasize msg = color disabled (lit "[bold][yellow]" ++ msg)
