-- ===== src/Cmd/Create/Names.antt =====
-- Where the files of an application are made, and how its Go package is called.
use mathlib.Core.List.{reverse, reverse-append, reverse-reverse, append_assoc}
use bitcoinx.Base.{
  Text, lit, [], ◌∷◌, ◌++◌, Bool, true, false, eq_text, eq_text_refl, Option, some, Result, ok, ◌≡◌,
  refl, ◌∙◌, ap, sym, arith, has_prefix, trim_prefix, has_prefix-append, trim_prefix-append,
  wrapped, >>=-inv, wrapping-inv, Bool-cases, inl, inr,
}
use bitcoinx.Files.{IsLawful, write_file}
use bitcoinx.Files.Laws.{content-write_file}
use bitcoinx.GoPath.{path_join}
use bitcoinx.Project.{Project, save}
use bitcoinx.Httpfs.{read_file}
use bitcoinx.Cmd.Env.{ext, trim_suffix, go_src}
use bitcoinx.Cmd.Create.{
  Tools, TemplateContext, target, dot_tmpl, templatize, templatized, rendered, asset, extract_to,
  go_pkg_of,
}

has_prefix-append_both : (p s t : Text) → has_prefix (p ++ s) (p ++ t) ≡ has_prefix s t
unfolding has_prefix
has_prefix-append_both [] s t = refl
has_prefix-append_both (c ∷ p) s t = ground (arith, has_prefix-append_both p s t)

module _ {W : Type 0} (tools : Tools W) where
  -- An application below the source directory of the GOPATH gets its path from there as its Go
  -- package. Any other destination that merely starts with the text of the source directory passes
  -- the test too, and its whole path becomes the package.
  pub go_pkg_of_source :
      (more : Text)
      → (go_pkg_of tools (go_src tools.gopath tools.home ++ b'/' ∷ more) ≡ more)
        × (has_prefix more (lit "/") ≡ false
            → (has_prefix (go_src tools.gopath tools.home ++ more) (go_src tools.gopath tools.home)
                ≡ true)
              × (go_pkg_of tools (go_src tools.gopath tools.home ++ more)
                  ≡ go_src tools.gopath tools.home ++ more))
  unfolding go_pkg_of trim_prefix
  go_pkg_of_source more = (
    ap (λ (t : Text). trim_prefix t (go_src tools.gopath tools.home ++ lit "/"))
          (sym (append_assoc (go_src tools.gopath tools.home) (lit "/") more))
        ∙ trim_prefix-append (go_src tools.gopath tools.home ++ lit "/") more,
    λ h. (
      has_prefix-append (go_src tools.gopath tools.home) more,
      rw (has_prefix-append_both (go_src tools.gopath tools.home) more (lit "/") ∙ h) refl,
    ),
  )

-- A template is written to its path without the ending, whatever stands before it.
pub target-tmpl : (s : Text) → target (s ++ dot_tmpl) ≡ s
unfolding target ext trim_suffix
target-tmpl s = rw (reverse-append s dot_tmpl) (
    rw (eq_text_refl dot_tmpl)
      (rw (trim_prefix-append (reverse dot_tmpl) (reverse s)) (reverse-reverse s)))

-- What is written for a template with these bytes.
abbrev pub Renders : {W : Type 0} → Tools W → TemplateContext → Text → Text → Text → Bool → Type 0
Renders tools ctx dst bytes out true = templatize tools ctx dst bytes ≡ ok out
Renders tools ctx dst bytes out false = bytes ≡ out

module _ {W : Type 0} (tools : Tools W) {content : W → Text → Option Text}
    (lawful : IsLawful tools.files content) where
  rendered-Renders :
      (ctx : TemplateContext) (dst bytes out : Text) (w w' : W)
      → rendered tools ctx dst bytes w ≡ (ok out, w')
      → Renders tools ctx dst bytes out (eq_text (ext dst) dot_tmpl)
  unfolding rendered
  rendered-Renders ctx dst bytes out w w' h = elim (Bool-cases (eq_text (ext dst) dot_tmpl)) [
    | inl e ↦ rw e (
        wrapping-inv (lit "unable to templetaize") (templatized tools ctx dst bytes) w
          (ap (λ (r : Result Text × W). r.0) (rw e at h)))
    | inr e ↦ rw e (ground arith)
  ]

  -- After a template was extracted with success, the file that it makes holds what the template
  -- engine made of the template's bytes, if its name ends in `.tmpl`, and the bytes themselves if not.
  pub extract_to-content :
      (ctx : TemplateContext) (root src : Text) (p : Project) (dst : Text) (w : W)
      → (extract_to tools ctx root src p dst w).0 ≡ ok tt
      → (bytes : Text) × (out : Text) × (read_file (tools.open_asset src) ≡ ok bytes)
        × Renders tools ctx dst bytes out (eq_text (ext dst) dot_tmpl)
        × (content (extract_to tools ctx root src p dst w).1 (target dst) ≡ some out)
  unfolding extract_to
  extract_to-content ctx root src p dst w done =
      let (_, w1, e1, h1, s1) =
        >>=-inv
          (wrapped (lit "Failed to create chainkit.yml")
            (save tools.yaml tools.files p (path_join (root ∷ lit "chainkit.yml" ∷ []))))
          _ w done in
      let (bytes, w2, e2, h2, s2) =
        >>=-inv (wrapped (lit "unable to read template file") (asset tools src)) _ w1 h1 in
      let (out, w3, e3, h3, s3) = >>=-inv (rendered tools ctx dst bytes) _ w2 h2 in
      let written =
        wrapping-inv (lit "unable to write to destination")
          (write_file tools.files (target dst) out) w3 h3 in
      (
        bytes,
        out,
        wrapping-inv (lit "unable to read template file") (asset tools src) w1
            (ap (λ (r : Result Text × W). r.0) e2),
        rendered-Renders ctx dst bytes out w2 w3 e3,
        ap (λ (r : Result (Unit {0}) × W). content r.1 (target dst)) (s1 ∙ s2 ∙ s3)
            ∙ content-write_file tools.files lawful (target dst) out (target dst) w3 written
            ∙ rw (eq_text_refl (target dst)),
      )
