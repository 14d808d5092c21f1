-- ===== src/Cmd/Create/Templates.antt =====
-- The creation of an application from the templates in the program.
use bitcoinx.Base.{
  Text, lit, Bool, true, false, none, Result, ok, err, is_skip_dir, Eff, ◌>>=◌, wrapped, wrapping,
  continue, eq_text, ◌≡◌, refl, ap, ◌∙◌, map, Bool-cases, inl, inr, [], ◌∷◌,
}
use bitcoinx.Project.{Project, save}
use bitcoinx.Files.{write_file}
use bitcoinx.GoPath.{path_join}
use bitcoinx.Httpfs.Laws.{NotSkip, visit_all}
use bitcoinx.Assets.{Readers}
use bitcoinx.Assets.Table.{assets}
use bitcoinx.Assets.Table.Laws.{path_of, walk-assets}
use bitcoinx.Assets.Tree.{dir_at}
use bitcoinx.Httpfs.{Dir, walk}
use bitcoinx.Cmd.Create.{
  Tools, TemplateContext, templatize, templatized, rendered, asset, extract_to, place, extract_file,
  extract_visit, extract_files, target, dot_tmpl,
}
use bitcoinx.Cmd.Env.{ext}

-- A result that does not ask to skip, and a call that never returns one that does.
abbrev pub Spared : {A : Type 0} → Result A → Type 0
Spared (ok a) = Unit
Spared (err e) = is_skip_dir e ≡ false

abbrev pub Never : {W A : Type 0} → Eff W A → Type 0
Never {W} m = (w : W) → Spared (m w).0

Never-wrapped : {W A : Type 0} (text : Text) (m : Eff W A) → Never (wrapped text m)
Never-wrapped {W} {A} text m w = go (m w).0
  where
    go : (r : Result A) → Spared (wrapping text r)
    go (ok a) = tt
    go (err x) = refl

Never->>= :
    {W A B : Type 0} (m : Eff W A) (f : A → Eff W B)
    → Never m
    → ((a : A) → Never (f a))
    → Never (m >>= f)
Never->>= {W} {A} {B} m f hm hf w = go (m w) (hm w)
  where
    go : (r : Result A × W) → Spared r.0 → Spared (continue r f).0
    go (ok a, w') h = hf a w'
    go (err x, w') h = h

Spared-NotSkip : (r : Result (Unit {0})) → Spared r → NotSkip r
Spared-NotSkip (ok u) h = h
Spared-NotSkip (err e) h = h

module _ {W : Type 0} (tools : Tools W) (ctx : TemplateContext) (root : Text) (p : Project) where
  Never-rendered : (dst bytes : Text) → Never (rendered tools ctx dst bytes)
  unfolding rendered
  Never-rendered dst bytes w = elim (Bool-cases (eq_text (ext dst) dot_tmpl)) [
    | inl is ↦
        rw is (Never-wrapped (lit "unable to templetaize") (templatized tools ctx dst bytes) w)
    | inr not ↦ rw not tt
  ]

  -- The calls of the extraction, from the last one to the first.
  abbrev write_out : Text → Text → Eff W (Unit {0})
  write_out dst out =
      wrapped (lit "unable to write to destination") (write_file tools.files (target dst) out)

  abbrev render_out : Text → Text → Eff W (Unit {0})
  render_out dst bytes = rendered tools ctx dst bytes >>= write_out dst

  abbrev read_in : Text → Eff W Text
  read_in src = wrapped (lit "unable to read template file") (asset tools src)

  abbrev saved : Eff W (Unit {0})
  saved =
      wrapped (lit "Failed to create chainkit.yml")
        (save tools.yaml tools.files p (path_join (root ∷ lit "chainkit.yml" ∷ [])))

  Never-extract_to : (src dst : Text) → Never (extract_to tools ctx root src p dst)
  unfolding extract_to
  Never-extract_to src dst =
      Never->>= saved (λ u. read_in src >>= render_out dst)
        (Never-wrapped (lit "Failed to create chainkit.yml")
          (save tools.yaml tools.files p (path_join (root ∷ lit "chainkit.yml" ∷ []))))
        (λ u.
          Never->>= (read_in src) (render_out dst)
            (Never-wrapped (lit "unable to read template file") (asset tools src))
            (λ bytes.
              Never->>= (rendered tools ctx dst bytes) (write_out dst) (Never-rendered dst bytes)
                (λ out.
                  Never-wrapped (lit "unable to write to destination")
                    (write_file tools.files (target dst) out))))

  module _ (mkdir : (path : Text) → Never (tools.files.mkdir_all path))
      (names : (src : Text) → Spared (templatize tools ctx src src)) where
    Never-place : (src dst : Text) (is_dir : Bool) → Never (place tools ctx root src p is_dir dst)
    unfolding place
    Never-place src dst true = mkdir dst
    Never-place src dst false = Never-extract_to src dst

    Never-extract_visit :
        (path : Text) (is_dir : Bool) → Never (extract_visit tools ctx root p path is_dir none)
    unfolding extract_visit extract_file
    Never-extract_visit path is_dir =
        Never->>= (templatized tools ctx path path)
          (λ parsed. place tools ctx root path p is_dir (path_join (root ∷ parsed ∷ [])))
          (λ w. names path) (λ parsed. Never-place path (path_join (root ∷ parsed ∷ [])) is_dir)

    -- If the templates are those in the program, and neither the making of a directory nor the
    -- rendering of a name returns `filepath.SkipDir`, the extraction visits every template file and
    -- directory, once, in the order in which the source lists them, up to the first error.
    pub extract_files-assets :
        {G B : Type 0} (readers : Readers G B) (bytes : Text → Text)
        → tools.assets ≡ dir_at readers (assets bytes) 4 (lit "/")
        → (w : W)
        → extract_files tools ctx root p w
          ≡ visit_all (extract_visit tools ctx root p) (map path_of (assets bytes)) w
    unfolding extract_files
    extract_files-assets readers bytes same w =
        ap (λ (d : Dir). walk (extract_visit tools ctx root p) d (lit "/") w) same
        ∙ walk-assets readers bytes (extract_visit tools ctx root p)
            (λ path is_dir w'. Spared-NotSkip _ (Never-extract_visit path is_dir w')) w
