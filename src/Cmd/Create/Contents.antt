-- ===== src/Cmd/Create/Contents.antt =====
-- What the files of a new application hold.
use bitcoinx.Base.{
  Text, lit, List, [], ◌∷◌, ◌++◌, Bool, false, eq_text, Option, none, some, Result, ok, err, Eff,
  is_not_exist, has_prefix, All, ◌≡◌, refl, ◌∙◌, ap, sym, subst, Bool-cases, inl, inr, arith, map,
  >>=-inv, >>=-ok,
}
use bitcoinx.Files.{IsFramed, IsLawful}
use bitcoinx.Files.Frame.{Spares}
use bitcoinx.GoPath.{path_join}
use bitcoinx.Project.{Project}
use bitcoinx.Httpfs.{WalkFunc, read_file}
use bitcoinx.Httpfs.Laws.{visit_all, stop_on_error}
use bitcoinx.Httpfs.Keeps.{KeepsAt}
use bitcoinx.Assets.{Readers}
use bitcoinx.Assets.Table.{assets}
use bitcoinx.Assets.Table.Laws.{path_of}
use bitcoinx.Assets.Tree.{dir_at}
use bitcoinx.Cmd.Env.{go_src, ext}
use bitcoinx.Cmd.Create.{
  Tools, TemplateContext, target, dot_tmpl, templatize, templatized, extract_to, place,
  extract_file, extract_visit, extract_files, scaffold, scaffold_on, context,
}
use bitcoinx.Cmd.Create.Laws.{Avoids, All-KeepsAt}
use bitcoinx.Cmd.Create.Names.{Renders, extract_to-content}
use bitcoinx.Cmd.Create.Templates.{Never, Spared, extract_files-assets}

stop_on_error-keeps :
    {W : Type 0} (P : W → Type 0) (r : Result (Unit {0}) × W) (f : Eff W (Unit {0}))
    → P r.1
    → ((w : W) → P w → P (f w).1)
    → P (stop_on_error r f).1
stop_on_error-keeps P (ok u, w) f p h = h w p
stop_on_error-keeps P (err e, w) f p h = p

stop_on_error-inv :
    {W : Type 0} (r : Result (Unit {0}) × W) (f : Eff W (Unit {0}))
    → (stop_on_error r f).0 ≡ ok tt
    → (w : W) × (r ≡ (ok tt, w)) × ((f w).0 ≡ ok tt) × (stop_on_error r f ≡ f w)
stop_on_error-inv (ok u, w) f h = (w, refl, h, refl)
stop_on_error-inv (err e, w) f h = cc

module _ {W : Type 0} (visit : WalkFunc W) where
  -- What every visit keeps is kept by all of them.
  visit_all-keeps :
      (P : W → Type 0) (xs : List (Text × Bool)) (w : W)
      → All (KeepsAt visit P) xs
      → P w
      → P (visit_all visit xs w).1
  unfolding visit_all
  visit_all-keeps P [] w h p = p
  visit_all-keeps P ((path, is_dir) ∷ xs) w h p =
      stop_on_error-keeps P (visit path is_dir none w) (visit_all visit xs) (h.0 none w p)
        (λ w'. visit_all-keeps P xs w' h.1)

  -- When all visits succeed, so does that of an entry, in some world, and those behind it follow.
  visit_all-inv :
      (before after : List (Text × Bool)) (path : Text) (is_dir : Bool) (w : W)
      → (visit_all visit (before ++ (path, is_dir) ∷ after) w).0 ≡ ok tt
      → (w1 : W) × (w2 : W) × (visit path is_dir none w1 ≡ (ok tt, w2))
        × (visit_all visit (before ++ (path, is_dir) ∷ after) w ≡ visit_all visit after w2)
  unfolding visit_all
  visit_all-inv [] after path is_dir w done =
      let (w2, e, _, same) =
        stop_on_error-inv (visit path is_dir none w) (λ v. visit_all visit after v) done in
      (w, w2, e, same)
  visit_all-inv ((q, d) ∷ before) after path is_dir w done =
      let (v, _, rest, same) =
        stop_on_error-inv (visit q d none w)
          (λ v. visit_all visit (before ++ (path, is_dir) ∷ after) v) done in
      let (w1, w2, e, behind) = visit_all-inv before after path is_dir v rest in
      (w1, w2, e, same ∙ behind)

module _ {W : Type 0} (tools : Tools W) {content : W → Text → Option Text}
    (framed : IsFramed tools.files content) (lawful : IsLawful tools.files content) where
  -- Where a template whose name is rendered to `parsed` is written.
  abbrev pub made_at : Text → Text → Text
  made_at root parsed = target (path_join (root ∷ parsed ∷ []))

  -- What the file of a template holds: what the template engine made of the template's bytes, if the
  -- rendered name ends in `.tmpl`, and the bytes themselves if not.
  abbrev pub Holds : TemplateContext → Text → Text → Text → W → Type 0
  Holds ctx root path parsed w =
      (bytes : Text) × (out : Text) × (read_file (tools.open_asset path) ≡ ok bytes)
      × Renders tools ctx (path_join (root ∷ parsed ∷ [])) bytes out
          (eq_text (ext (path_join (root ∷ parsed ∷ []))) dot_tmpl)
      × (content w (made_at root parsed) ≡ some out)

  module _ (ctx : TemplateContext) (root : Text) (p : Project) (path parsed : Text)
      (named : templatize tools ctx path path ≡ ok parsed) where
    extract_visit-extract_to :
        (w : W)
        → extract_visit tools ctx root p path false none w
          ≡ extract_to tools ctx root path p (path_join (root ∷ parsed ∷ [])) w
    unfolding extract_visit extract_file place
    extract_visit-extract_to w =
        >>=-ok (templatized tools ctx path path) _ (ap (λ (r : Result Text). (r, w)) named)

    extract_visit-Holds :
        (w w' : W)
        → extract_visit tools ctx root p path false none w ≡ (ok tt, w')
        → Holds ctx root path parsed w'
    extract_visit-Holds w w' done =
        let run = sym (extract_visit-extract_to w) ∙ done in
        subst (Holds ctx root path parsed) (ap (λ (r : Result (Unit {0}) × W). r.1) run) (
          extract_to-content tools lawful ctx root path p (path_join (root ∷ parsed ∷ [])) w
            (ap (λ (r : Result (Unit {0}) × W). r.0) run))

    -- The visits behind an entry keep its file, if they make other files.
    visit_all-Holds :
        (before after : List (Text × Bool)) (w : W)
        → eq_text (path_join (root ∷ lit "chainkit.yml" ∷ [])) (made_at root parsed) ≡ false
        → All (Avoids tools framed (made_at root parsed) ctx root) after
        → (visit_all (extract_visit tools ctx root p) (before ++ (path, false) ∷ after) w).0 ≡ ok tt
        → Holds ctx root path parsed
            (visit_all (extract_visit tools ctx root p) (before ++ (path, false) ∷ after) w).1
    visit_all-Holds before after w manifest apart done =
        let (w1, w2, e, same) =
          visit_all-inv (extract_visit tools ctx root p) before after path false w done in
        let (bytes, out, got, rendered, held) = extract_visit-Holds w1 w2 e in
        (
          bytes,
          out,
          got,
          rendered,
          ap (λ (r : Result (Unit {0}) × W). content r.1 (made_at root parsed)) same
              ∙ visit_all-keeps (extract_visit tools ctx root p)
                  (λ v. content v (made_at root parsed) ≡ some out) after w2
                  (All-KeepsAt tools framed (made_at root parsed) ctx root p (some out) after
                    manifest apart)
                  held,
        )

  -- The files were extracted with success, and the tree was printed after that.
  abbrev Ran : Text → Project → Result (Unit {0}) × W → Type 0
  Ran root p r =
      (v : W) × ((extract_files tools (context tools root p) root p v).0 ≡ ok tt)
      × (r.1
          ≡ (tools.print_tree root (lit "k8s" ∷ [])
              (extract_files tools (context tools root p) root p v).1).1)

  scaffold_on-Ran :
      (root : Text) (p : Project) (found : Result (Unit {0})) (w : W)
      → (scaffold_on tools root p found w).0 ≡ ok tt
      → Ran root p (scaffold_on tools root p found w)
  unfolding scaffold_on
  scaffold_on-Ran root p (ok u) w done = cc
  scaffold_on-Ran root p (err e) w done = elim (Bool-cases (is_not_exist e)) [
    | inr old ↦ absurd (ground arith)
    | inl new ↦
        let (u, w', e, _, same) =
          >>=-inv (extract_files tools (context tools root p) root p)
            (λ _. tools.print_tree root (lit "k8s" ∷ [])) w (rw new at done) in
        rw new (
          w,
          ap (λ (r : Result (Unit {0}) × W). r.0) e,
          ap (λ (r : Result (Unit {0}) × W). r.1) same
              ∙ ap (λ (r : Result (Unit {0}) × W). (tools.print_tree root (lit "k8s" ∷ []) r.1).1)
                  (sym e),
        )
  ]

  scaffold-Ran :
      (root : Text) (p : Project) (w : W)
      → (scaffold tools root p w).0 ≡ ok tt
      → Ran root p (scaffold tools root p w)
  unfolding scaffold
  scaffold-Ran root p w done =
      elim (Bool-cases (has_prefix root (go_src tools.gopath tools.home))) [
        | inr outside ↦ absurd (ground arith)
        | inl inside ↦ rw inside (
            scaffold_on-Ran root p (tools.files.stat root w).0 (tools.files.stat root w).1
              (rw inside at done))
      ]

  -- When an application was made with success from the templates in the program, every file that a
  -- template gives holds what the template engine made of the template's bytes, or the bytes, if its
  -- name does not end in `.tmpl`; provided that neither the manifest, nor a template behind it, nor
  -- the printing of the tree writes the same file, and that no call asks to skip.
  pub scaffold-Holds :
      {G B : Type 0} (readers : Readers G B) (bytes : Text → Text)
      → tools.assets ≡ dir_at readers (assets bytes) 4 (lit "/")
      → ((path : Text) → Never (tools.files.mkdir_all path))
      → (root path parsed : Text) (p : Project) (before after : List (Text × Bool)) (w : W)
      → ((src : Text) → Spared (templatize tools (context tools root p) src src))
      → map path_of (assets bytes) ≡ before ++ (path, false) ∷ after
      → templatize tools (context tools root p) path path ≡ ok parsed
      → eq_text (path_join (root ∷ lit "chainkit.yml" ∷ [])) (made_at root parsed) ≡ false
      → All (Avoids tools framed (made_at root parsed) (context tools root p) root) after
      → Spares content (made_at root parsed) (tools.print_tree root (lit "k8s" ∷ []))
      → (scaffold tools root p w).0 ≡ ok tt
      → Holds (context tools root p) root path parsed (scaffold tools root p w).1
  scaffold-Holds readers bytes same mkdir root path parsed p before after w names listed named
        manifest apart printed done =
      let ctx = context tools root p in
      let (v, extracted, last) = scaffold-Ran root p w done in
      let run : extract_files tools ctx root p v
          ≡ visit_all (extract_visit tools ctx root p) (before ++ (path, false) ∷ after) v =
        extract_files-assets tools ctx root p mkdir names readers bytes same v
        ∙ ap (λ (xs : List (Text × Bool)). visit_all (extract_visit tools ctx root p) xs v)
            listed in
      let (text, out, got, rendered, held) =
        visit_all-Holds ctx root p path parsed named before after v manifest apart
          (ap (λ (r : Result (Unit {0}) × W). r.0) (sym run) ∙ extracted) in
      (
        text,
        out,
        got,
        rendered,
        ap (λ (u : W). content u (made_at root parsed)) last
            ∙ printed (extract_files tools ctx root p v).1
            ∙ ap (λ (r : Result (Unit {0}) × W). content r.1 (made_at root parsed)) run
            ∙ held,
      )
