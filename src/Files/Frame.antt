-- ===== src/Files/Frame.antt =====
-- Calls that leave one file alone, whether or not they succeed, and how they are put together.
use bitcoinx.Base.{
  Text, false, eq_text, Option, Result, ok, err, Eff, ◌>>=◌, continue, ◌≡◌, refl, ◌∙◌,
}
use bitcoinx.Files.{Files, IsFramed, write_file}

module _ {W : Type 0} (content : W → Text → Option Text) (q : Text) where
  -- The call does not change the file.
  abbrev pub Spares : {A : Type 0} → Eff W A → Type 0
  Spares m = (w : W) → content (m w).1 q ≡ content w q

  continue-Spares :
      {A B : Type 0} (r : Result A × W) (f : A → Eff W B)
      → ((a : A) → Spares (f a))
      → content (continue r f).1 q ≡ content r.1 q
  continue-Spares (ok a, w) f h = h a w
  continue-Spares (err e, w) f h = refl

  pub >>=-Spares :
      {A B : Type 0} (m : Eff W A) (f : A → Eff W B)
      → Spares m
      → ((a : A) → Spares (f a))
      → Spares (m >>= f)
  >>=-Spares m f hm hf w = continue-Spares (m w) f hf ∙ hm w

module _ {W : Type 0} (fs : Files W) {content : W → Text → Option Text}
    (framed : IsFramed fs content) where
  pub write_file-Spares :
      (q path d : Text) → eq_text path q ≡ false → Spares content q (write_file fs path d)
  write_file-Spares q path d ne =
      >>=-Spares content q (fs.create path) (λ _. fs.put path d)
        (λ w. framed.create-other path q w ne) (λ _ w. framed.put-other path d q w ne)
