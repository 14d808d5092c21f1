-- ===== src/Cmd/Create/Laws.antt =====
-- What making a new application leaves on the disk.
use bitcoinx.Base.{
  ◌⊎◌, if◌then◌else◌, Text, lit, List, [], ◌∷◌, Bool, true, false, eq_text, Option, none, some,
  Result, ok, err, is_not_exist, not_exist, wrap, wrapped, has_prefix, All, ◌≡◌, ◌≢◌, refl, ◌∙◌,
  arith, Bool-cases, Result-cases, inl, inr,
}
use bitcoinx.Files.{IsFramed, IsLawful}
use bitcoinx.Files.Frame.{Spares, >>=-Spares, write_file-Spares}
use bitcoinx.GoPath.{path_join}
use bitcoinx.GoPath.Laws.{IsName, absolute}
use bitcoinx.Project.{Project, save, load, manifest_file, cannot_find}
use bitcoinx.Project.Laws.{load-none, chainkit-ne-manifest}
use bitcoinx.Httpfs.Laws.{preorder}
use bitcoinx.Httpfs.Keeps.{KeepsAt, walk-keeps}
use bitcoinx.Cmd.Env.{go_src, ext}
use bitcoinx.Cmd.Create.{
  Tools, TemplateContext, target, templatize, rendered, asset, extract_to, place, extract_file,
  extract_visit, extract_files, scaffold, scaffold_on, context, outside, already_exists,
}

module _ {W : Type 0} (tools : Tools W) {content : W → Text → Option Text}
    (framed : IsFramed tools.files content) (q : Text) where
  save-Spares :
      (p : Project) (path : Text)
      → eq_text path q ≡ false
      → Spares content q (save tools.yaml tools.files p path)
  unfolding save
  save-Spares p path ne w = elim (Result-cases (tools.yaml.marshal p)) [
    | inl (bytes, e) ↦ rw (e, save) (write_file-Spares tools.files framed q path bytes ne w)
    | inr (x, e) ↦ rw (e, save) refl
  ]

  rendered-Spares :
      (ctx : TemplateContext) (dst d : Text) → Spares content q (rendered tools ctx dst d)
  unfolding rendered
  rendered-Spares ctx dst d w = elim (Bool-cases (eq_text (ext dst) (lit ".tmpl"))) [
    | inl e ↦ rw e refl
    | inr e ↦ rw e refl
  ]

  extract_to-Spares :
      (ctx : TemplateContext) (root src : Text) (p : Project) (dst : Text)
      → eq_text (path_join (root ∷ lit "chainkit.yml" ∷ [])) q ≡ false
      → eq_text (target dst) q ≡ false
      → Spares content q (extract_to tools ctx root src p dst)
  unfolding extract_to
  extract_to-Spares ctx root src p dst manifest other =
      >>=-Spares content q
        (wrapped (lit "Failed to create chainkit.yml")
          (save tools.yaml tools.files p (path_join (root ∷ lit "chainkit.yml" ∷ []))))
        _ (save-Spares p _ manifest)
        λ _.
          >>=-Spares content q (wrapped (lit "unable to read template file") (asset tools src)) _
            (λ w. refl)
            λ bytes.
              >>=-Spares content q (rendered tools ctx dst bytes) _ (rendered-Spares ctx dst bytes)
                λ out. write_file-Spares tools.files framed q (target dst) out other

  -- No file is made at `q` for the path of a template.
  abbrev pub Avoids : TemplateContext → Text → Text × Bool → Type 0
  Avoids ctx root (path, is_dir) =
      (parsed : Text)
      → templatize tools ctx path path ≡ ok parsed
      → eq_text (target (path_join (root ∷ parsed ∷ []))) q ≡ false

  place-Spares :
      (ctx : TemplateContext) (root src : Text) (p : Project) (is_dir : Bool) (dst : Text)
      → eq_text (path_join (root ∷ lit "chainkit.yml" ∷ [])) q ≡ false
      → eq_text (target dst) q ≡ false
      → Spares content q (place tools ctx root src p is_dir dst)
  unfolding place
  place-Spares ctx root src p true dst manifest other w = framed.mkdir_all-content dst q w
  place-Spares ctx root src p false dst manifest other w =
      extract_to-Spares ctx root src p dst manifest other w

  extract_visit-KeepsAt :
      (ctx : TemplateContext) (root : Text) (p : Project) (v : Option Text) (x : Text × Bool)
      → eq_text (path_join (root ∷ lit "chainkit.yml" ∷ [])) q ≡ false
      → Avoids ctx root x
      → KeepsAt (extract_visit tools ctx root p) (λ w. content w q ≡ v) x
  unfolding extract_visit extract_file
  extract_visit-KeepsAt ctx root p v (path, is_dir) manifest avoids (some e) w h = h
  extract_visit-KeepsAt ctx root p v (path, is_dir) manifest avoids none w h =
      elim (Result-cases (templatize tools ctx path path)) [
        | inl (parsed, e) ↦ rw e (
            place-Spares ctx root path p is_dir (path_join (root ∷ parsed ∷ [])) manifest
              (avoids parsed e) w
            ∙ h)
        | inr (x, e) ↦ rw e h
      ]

  pub All-KeepsAt :
      (ctx : TemplateContext) (root : Text) (p : Project) (v : Option Text)
      (xs : List (Text × Bool))
      → eq_text (path_join (root ∷ lit "chainkit.yml" ∷ [])) q ≡ false
      → All (Avoids ctx root) xs
      → All (KeepsAt (extract_visit tools ctx root p) (λ w. content w q ≡ v)) xs
  All-KeepsAt ctx root p v [] manifest h = tt
  All-KeepsAt ctx root p v (x ∷ xs) manifest h =
      (extract_visit-KeepsAt ctx root p v x manifest h.0, All-KeepsAt ctx root p v xs manifest h.1)

  extract_files-Spares :
      (ctx : TemplateContext) (root : Text) (p : Project)
      → eq_text (path_join (root ∷ lit "chainkit.yml" ∷ [])) q ≡ false
      → All (Avoids ctx root) (preorder tools.assets (lit "/"))
      → Spares content q (extract_files tools ctx root p)
  unfolding extract_files
  extract_files-Spares ctx root p manifest avoids w =
      walk-keeps (extract_visit tools ctx root p) (λ w'. content w' q ≡ content w q) tools.assets
        (lit "/") w
        (All-KeepsAt ctx root p (content w q) (preorder tools.assets (lit "/")) manifest avoids)
        refl

  scaffold_on-Spares :
      (root : Text) (p : Project) (found : Result (Unit {0}))
      → eq_text (path_join (root ∷ lit "chainkit.yml" ∷ [])) q ≡ false
      → All (Avoids (context tools root p) root) (preorder tools.assets (lit "/"))
      → Spares content q (tools.print_tree root (lit "k8s" ∷ []))
      → Spares content q (scaffold_on tools root p found)
  unfolding scaffold_on
  scaffold_on-Spares root p (ok u) manifest avoids printed w = refl
  scaffold_on-Spares root p (err e) manifest avoids printed w = elim (Bool-cases (is_not_exist e)) [
    | inl new ↦ rw new (
        >>=-Spares content q (extract_files tools (context tools root p) root p) _
          (extract_files-Spares (context tools root p) root p manifest avoids) (λ _. printed) w)
    | inr old ↦ rw old refl
  ]

  -- Making an application changes no file but the manifest `chainkit.yml` and the targets of the
  -- templates, also where it fails half-way.
  pub scaffold-Spares :
      (root : Text) (p : Project)
      → eq_text (path_join (root ∷ lit "chainkit.yml" ∷ [])) q ≡ false
      → All (Avoids (context tools root p) root) (preorder tools.assets (lit "/"))
      → Spares content q (tools.print_tree root (lit "k8s" ∷ []))
      → Spares content q (scaffold tools root p)
  unfolding scaffold
  scaffold-Spares root p manifest avoids printed w =
      elim (Bool-cases (has_prefix root (go_src tools.gopath tools.home))) [
        | inl inside ↦ rw inside (
            scaffold_on-Spares root p (tools.files.stat root w).0 manifest avoids printed
              (tools.files.stat root w).1
            ∙ framed.stat-content root q w)
        | inr other ↦ rw other refl
      ]

module _ {W : Type 0} (tools : Tools W) {content : W → Text → Option Text}
    (framed : IsFramed tools.files content) (lawful : IsLawful tools.files content) where
  -- An application that was made in a directory without `bitcoinx.yml`, from templates of which none
  -- has that target, is no project for the other commands: loading it fails because the manifest
  -- does not exist, whether or not making it has succeeded.
  pub load-scaffold :
      (ps : List Text) (p : Project) (w : W)
      → All IsName ps
      → content w (path_join (absolute ps ∷ manifest_file ∷ [])) ≡ none
      → All
          (Avoids tools framed
            (path_join (absolute ps ∷ manifest_file ∷ []))
            (context tools (absolute ps) p)
            (absolute ps))
          (preorder tools.assets (lit "/"))
      → Spares content
          (path_join (absolute ps ∷ manifest_file ∷ []))
          (tools.print_tree (absolute ps) (lit "k8s" ∷ []))
      → (load tools.yaml tools.files (absolute ps) (scaffold tools (absolute ps) p w).1).0
        ≡ err (wrap cannot_find not_exist)
  load-scaffold ps p w names absent avoids printed =
      load-none tools.yaml tools.files lawful (absolute ps) (scaffold tools (absolute ps) p w).1 (
        scaffold-Spares tools framed (path_join (absolute ps ∷ manifest_file ∷ [])) (absolute ps) p
          (chainkit-ne-manifest ps names) avoids printed w
        ∙ absent)

module _ {W : Type 0} (tools : Tools W) where
  -- Nothing is written for a destination that does not start with the text of the source directory
  -- of the GOPATH, or that is there already, or that cannot be examined; the first is an error of its
  -- own, of which nothing is asked but the paths, and the others are the same error.
  pub scaffold-refuses :
      (root : Text) (p : Project) (w : W)
      → (has_prefix root (go_src tools.gopath tools.home) ≡ false)
        ⊎ ((tools.files.stat root w).0 ≢ err not_exist)
      → scaffold tools root p w ≡ (
          if has_prefix root (go_src tools.gopath tools.home)
          then (err (already_exists tools root), (tools.files.stat root w).1)
          else (err (outside tools), w))
  unfolding scaffold scaffold_on
  scaffold-refuses root p w h = ground arith
