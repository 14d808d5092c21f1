-- ===== src/Files/Laws.antt =====
-- What a successful `ioutil.WriteFile` leaves in the files.
use bitcoinx.Base.{Text, Option, some, ok, ◌≡◌, [], eq_text, eq_text_refl, if◌then◌else◌, arith}
use bitcoinx.Files.{Files, IsLawful, write_file}

module _ {W : Type 0} (fs : Files W) {content : W → Text → Option Text}
    (lawful : IsLawful fs content) where
  created : (p d : Text) (w : W) → (write_file fs p d w).0 ≡ ok tt → (fs.create p w).0 ≡ ok tt
  created p d w h = ground arith

  -- The file holds what was written, and no other file has changed.
  pub content-write_file :
      (p d q : Text) (w : W)
      → (write_file fs p d w).0 ≡ ok tt
      → content (write_file fs p d w).1 q ≡ (if eq_text p q then some d else content w q)
  content-write_file p d q w h = ground (
    arith,
    eq_text_refl p,
    lawful.content-create p p w,
    lawful.content-create p q w,
    lawful.content-put p d q (fs.create p w).1 {old = []},
  )
