-- ===== src/Project/Laws.antt =====
-- The manifest: which projects are valid, and what is loaded after it was saved.
use bitcoinx.Files.{write_file}
use bitcoinx.Files.Laws.{content-write_file}
use bitcoinx.Base.{inl, inr, Result-cases, Text, lit, Option, none, some, ok, err, Error, wrap}
use bitcoinx.Base.{
  [], ◌∷◌, is_empty, ◌≡◌, ◌↔◌, refl, arith, false, eq_text, ◌∙◌, sym, subst, List, All, not_exist,
  eq_text_refl,
}
use bitcoinx.Files.{Files, IsLawful}
use bitcoinx.GoPath.{path_join}
use bitcoinx.GoPath.Laws.{IsName, absolute, path_join-ne}
use bitcoinx.Project.{
  Project, Binaries, Yaml, validate, parse, checked, save, load, manifest_file, cannot_find,
}

-- Every required field is there.
abbrev pub HasBinaries : Option Binaries → Type 0
HasBinaries none = ⊥
HasBinaries (some b) = (is_empty b.cli ≡ false) × (is_empty b.daemon ≡ false)

pub record IsComplete (p : Project) : Type 0 where
  pub named : is_empty p.name ≡ false
  pub imaged : is_empty p.image ≡ false
  pub binaries : HasBinaries p.binaries

validate_parts :
    (p : Project) (b : Option Binaries)
    → p.binaries ≡ b
    → (validate p ≡ ok tt) ↔ (is_empty p.name ≡ false) × (is_empty p.image ≡ false) × HasBinaries b
unfolding validate
validate_parts p none e = ground arith
validate_parts p (some b) e = ground arith

-- A project is valid exactly when its name, its image and the names of its two binaries are given.
pub validate_iff : (p : Project) → (validate p ≡ ok tt) ↔ IsComplete p
validate_iff p =
    let h = validate_parts p p.binaries refl in
    (
      λ v. let (a, b, c) = h.0 v in record { named = a; imaged = b; binaries = c },
      λ c. h.1 (c.named, c.imaged, c.binaries),
    )

checked_iff : (q p : Project) → (checked q (validate q) ≡ ok p) ↔ ((ok q ≡ ok p) × IsComplete p)
unfolding checked
checked_iff q p = elim (Result-cases (validate q)) [
  | inl (u, e) ↦ (
    λ h.
        let same : ok q ≡ ok p = rw (e, checked) at h in
        (same, subst IsComplete (ok_inj same) ((validate_iff q).0 e)),
    λ h. rw (e, checked) h.0,
  )
  | inr (x, e) ↦ (
    λ h. absurd (bad (rw (e, checked) at h)),
    λ h. absurd (worse (sym e ∙ (validate_iff q).1 (subst IsComplete (sym (ok_inj h.0)) h.1))),
  )
]
  where
    ok_inj : {a b : Project} → ok a ≡ ok b → a ≡ b
    ok_inj h = cc

    bad : {x : Error} {a : Project} → err x ≡ ok a → ⊥
    bad h = cc

    worse : {x : Error} {a : Unit {0}} → err x ≡ ok a → ⊥
    worse h = cc

-- The manifest that `create` writes and the one that `Load` reads are different files.
pub chainkit-ne-manifest :
    (ps : List Text)
    → All IsName ps
    → eq_text
        (path_join (absolute ps ∷ lit "chainkit.yml" ∷ []))
        (path_join (absolute ps ∷ manifest_file ∷ []))
      ≡ false
unfolding eq_text
chainkit-ne-manifest ps names =
    path_join-ne ps (lit "chainkit.yml") manifest_file names
      (record { no_slash = omega arith; nonempty = refl; not_dot = refl; not_dot_dot = refl })
      (record { no_slash = omega arith; nonempty = refl; not_dot = refl; not_dot_dot = refl }) refl

module _ (yaml : Yaml) where
  -- A manifest is accepted exactly when the YAML library decodes it to a complete project, which is
  -- then the result.
  pub parse_iff :
      (m : Text) (p : Project) → (parse yaml m ≡ ok p) ↔ ((yaml.decode m ≡ ok p) × IsComplete p)
  unfolding parse
  parse_iff m p = elim (Result-cases (yaml.decode m)) [
    | inl (q, e) ↦ rw (e, parse) (checked_iff q p)
    | inr (x, e) ↦ rw (e, parse) (λ h. cc, λ h. cc)
  ]

  module _ {W : Type 0} (fs : Files W) {content : W → Text → Option Text}
      (lawful : IsLawful fs content) where
    load-some :
        (dir m : Text) (w : W)
        → content w (path_join (dir ∷ manifest_file ∷ [])) ≡ some m
        → (load yaml fs dir w).0 ≡ parse yaml m
    unfolding load
    load-some dir m w h = rw (lawful.read-some _ m w h, load)

    -- A directory without a manifest is no project.
    pub load-none :
        (dir : Text) (w : W)
        → content w (path_join (dir ∷ manifest_file ∷ [])) ≡ none
        → (load yaml fs dir w).0 ≡ err (wrap cannot_find not_exist)
    unfolding load
    load-none dir w h = rw (lawful.read-none _ w h, load)

    save-marshal :
        (p : Project) (bytes path : Text) (w : W)
        → yaml.marshal p ≡ ok bytes
        → save yaml fs p path w ≡ write_file fs path bytes w
    unfolding save
    save-marshal p bytes path w m = rw (m, save)

    -- A project that was saved as the manifest of a directory is loaded from it unchanged, if it is
    -- complete and the library decodes what it marshals.
    pub load-save :
        (p : Project) (bytes dir : Text) (w : W)
        → yaml.marshal p ≡ ok bytes
        → yaml.decode bytes ≡ ok p
        → IsComplete p
        → (save yaml fs p (path_join (dir ∷ manifest_file ∷ [])) w).0 ≡ ok tt
        → (load yaml fs dir (save yaml fs p (path_join (dir ∷ manifest_file ∷ [])) w).1).0 ≡ ok p
    load-save p bytes dir w m d complete saved =
        load-some dir bytes _ (
          rw (save-marshal p bytes path w m) (
            content-write_file fs lawful path bytes path w
              (rw (save-marshal p bytes path w m) at saved)
            ∙ rw (eq_text_refl path)))
        ∙ (parse_iff bytes p).1 (d, complete)
      where
        path : Text
        path = path_join (dir ∷ manifest_file ∷ [])

    save-other :
        (p : Project) (path q : Text) (w : W)
        → eq_text path q ≡ false
        → (save yaml fs p path w).0 ≡ ok tt
        → content (save yaml fs p path w).1 q ≡ content w q
    save-other p path q w ne saved = elim (Result-cases (yaml.marshal p)) [
      | inl (bytes, m) ↦ rw (save-marshal p bytes path w m) (
          content-write_file fs lawful path bytes q w (rw (save-marshal p bytes path w m) at saved)
          ∙ rw ne)
      | inr (x, m) ↦ unfold save in absurd (ground arith)
    ]

    -- A project that was saved as `chainkit.yml`, as the command `create` does, is not found when the
    -- directory held no `bitcoinx.yml` before: loading it fails because the manifest does not exist.
    pub load-save_chainkit :
        (p : Project) (ps : List Text) (w : W)
        → All IsName ps
        → content w (path_join (absolute ps ∷ manifest_file ∷ [])) ≡ none
        → (save yaml fs p (path_join (absolute ps ∷ lit "chainkit.yml" ∷ [])) w).0 ≡ ok tt
        → (load yaml fs
            (absolute ps)
            (save yaml fs p (path_join (absolute ps ∷ lit "chainkit.yml" ∷ [])) w).1).0
          ≡ err (wrap cannot_find not_exist)
    load-save_chainkit p ps w names absent saved =
        load-none (absolute ps) _
          (save-other p _ _ w (chainkit-ne-manifest ps names) saved ∙ absent)
