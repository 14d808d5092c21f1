-- ===== src/Node/Init/Once.antt =====
-- `init` of node/node.go on a chain that exists: what one further start does to the files.
use bitcoinx.Base.{
  Text, lit, Bool, Option, none, some, Result, ok, err, ◌≡◌, ◌≢◌, not_exist, refl, ◌∙◌, ap, eq_text,
  eq_text_refl, eq_text_iff, true, false, All, List, arith, subst, wrapped, continue-inv,
  wrapping-inv, >>=-ok, Bool-cases, inl, inr, sym,
}
use bitcoinx.Base.Lines.{print_lines, IsLine, max_token, drop_cr}
use bitcoinx.Files.{IsLawful, write_file}
use bitcoinx.Files.Laws.{content-write_file}
use bitcoinx.Files.Frame.{Spares}
use bitcoinx.Config.{Config, config_path, genesis_path}
use bitcoinx.Project.{Project}
use bitcoinx.Node.Update.{assignment, update_config}
use bitcoinx.Node.Update.Laws.{update_config-content}
use bitcoinx.Node.Update.Again.{Covers, AreLines}
use bitcoinx.Node.Init.{Host, init, initialize, node_vars, write_genesis}
use bitcoinx.Node.Init.Laws.{initialize-found}

-- A host on which asking for its name or for a file changes no file, a file that is there is found,
-- and the assignment of the name is a line that the scanner takes.
pub record IsQuiet {W : Type 0} (host : Host W) (content : W → Text → Option Text) : Type 0 where
  pub hostname-content : (q : Text) → Spares content q host.hostname
  pub stat-content : (p q : Text) → Spares content q (host.files.stat p)
  pub stat-found : (p d : Text) (w : W) → content w p ≡ some d → (host.files.stat p w).0 ≡ ok tt
  pub name-IsLine :
      (name : Text) (w : W)
      → (host.hostname w).0 ≡ ok name
      → IsLine (assignment (lit "moniker") (host.quote name))

differs_sym : (s t : Text) → eq_text s t ≡ false → eq_text t s ≡ false
differs_sym s t h = elim (Bool-cases (eq_text t s)) [
  | inr differ ↦ differ
  | inl same ↦ absurd (clash (sym (rw ((eq_text_iff t s).0 same) (eq_text_refl s)) ∙ h))
]
  where
    clash : true ≡ false → ⊥
    clash e = cc

module _ {W : Type 0} (host : Host W) {content : W → Text → Option Text}
    (lawful : IsLawful host.files content) (quiet : IsQuiet host content) where
  initialize-exists :
      (c : Config) (p : Project) (edit : Bool) (d q : Text) (w : W)
      → content w (genesis_path c) ≡ some d
      → content (initialize host c p edit w).1 q ≡ content w q
  initialize-exists c p edit d q w there =
      ap (λ (v : W). content v q)
        (initialize-found host c p edit w (host.files.stat (genesis_path c) w).1
          (host.files.stat (genesis_path c) w).0 refl
          (found _ (quiet.stat-found (genesis_path c) d w there)))
      ∙ quiet.stat-content (genesis_path c) q w
    where
      found : (r : Result (Unit {0})) → r ≡ ok tt → r ≢ err not_exist
      found r e h = cc

  -- The update that is made of the files, on a chain that exists.
  abbrev Updates : Config → Project → Option Text → Bool → W → Text → Type 0
  Updates c p given edit w name =
      (u : W) × ((q : Text) → content u q ≡ content w q)
      × ((update_config host.files (config_path c) (node_vars host name) u).0 ≡ ok tt)
      × (init host c p given edit w
          ≡ write_genesis host c given
              (update_config host.files (config_path c) (node_vars host name) u).1)

  init-Updates :
      (c : Config) (p : Project) (given : Option Text) (edit : Bool) (d name : Text) (w : W)
      → (host.hostname w).0 ≡ ok name
      → content w (genesis_path c) ≡ some d
      → (init host c p given edit w).0 ≡ ok tt
      → Updates c p given edit w name
  unfolding init
  init-Updates c p given edit d name w named there done =
      let (found, w1, e1, h1) =
        continue-inv (wrapped (lit "unable to determine hostname") host.hostname w) _ done in
      let (x, w2, e2, h2) =
        continue-inv (wrapped (lit "initialization failed") (initialize host c p edit) w1) _ h1 in
      let (y, w3, e3, h3) =
        continue-inv (update_config host.files (config_path c) (node_vars host found) w2) _ h2 in
      let asked =
        wrapping-inv (lit "unable to determine hostname") host.hostname w
          (ap (λ (r : Result Text × W). r.0) e1) in
      let first : (host.hostname w).1 ≡ w1 = ap (λ (r : Result Text × W). r.1) e1 in
      let second : (initialize host c p edit w1).1 ≡ w2 =
        ap (λ (r : Result (Unit {0}) × W). r.1) e2 in
      let same : (q : Text) → content w1 q ≡ content w q =
        λ q. ap (λ (v : W). content v q) (sym first) ∙ quiet.hostname-content q w in
      subst (λ (n : Text). Updates c p given edit w n) (inj (sym asked ∙ named))
        (
          w2,
          (λ q.
              ap (λ (v : W). content v q) (sym second)
              ∙ initialize-exists c p edit d q w1 (same (genesis_path c) ∙ there)
              ∙ same q),
          ap (λ (r : Result (Unit {0}) × W). r.0) e3,
          >>=-ok (wrapped (lit "unable to determine hostname") host.hostname) _ e1
              ∙ >>=-ok (wrapped (lit "initialization failed") (initialize host c p edit)) _ e2
              ∙ >>=-ok (update_config host.files (config_path c) (node_vars host found)) _ e3
              ∙ ap (λ (r : Result (Unit {0}) × W). write_genesis host c given r.1) (sym e3),
        )
    where
      inj : {x y : Text} → ok x ≡ ok y → x ≡ y
      inj e = cc

  -- Writing the genesis file leaves the configuration alone, and a genesis file behind.
  write_genesis-exists :
      (c : Config) (given : Option Text) (d : Text) (v : W)
      → eq_text (genesis_path c) (config_path c) ≡ false
      → content v (genesis_path c) ≡ some d
      → (write_genesis host c given v).0 ≡ ok tt
      → (content (write_genesis host c given v).1 (config_path c) ≡ content v (config_path c))
        × ((g : Text) × (content (write_genesis host c given v).1 (genesis_path c) ≡ some g))
  unfolding write_genesis
  write_genesis-exists c none d v apart there done = (refl, (d, there))
  write_genesis-exists c (some bytes) d v apart there done =
      let wrote =
        wrapping-inv (lit "unable to overwrite genesis file")
          (write_file host.files (genesis_path c) bytes) v done in
      (
        content-write_file host.files lawful (genesis_path c) bytes (config_path c) v wrote
            ∙ rw apart refl,
        (
          bytes,
          content-write_file host.files lawful (genesis_path c) bytes (genesis_path c) v wrote
              ∙ rw (eq_text_refl (genesis_path c)) refl,
        ),
      )

  -- A start on a chain that exists: the configuration is updated, and the chain still exists.
  pub starts :
      (c : Config) (p : Project) (given : Option Text) (edit : Bool) (ls : List Text)
      → (d name : Text) (w : W) → eq_text (genesis_path c) (config_path c) ≡ false
      → All IsLine ls
      → (host.hostname w).0 ≡ ok name
      → content w (genesis_path c) ≡ some d
      → content w (config_path c) ≡ some (print_lines ls)
      → (init host c p given edit w).0 ≡ ok tt
      → (u : W) × (content u (config_path c) ≡ content w (config_path c))
        × ((update_config host.files (config_path c) (node_vars host name) u).0 ≡ ok tt)
        × (content (init host c p given edit w).1 (config_path c)
            ≡ content
                (update_config host.files (config_path c) (node_vars host name) u).1
                (config_path c))
        × ((g : Text) × (content (init host c p given edit w).1 (genesis_path c) ≡ some g))
  starts c p given edit ls d name w apart good named there held done =
      let (u, same, updated, run) = init-Updates c p given edit d name w named there done in
      let other = differs_sym (genesis_path c) (config_path c) apart in
      let after =
        update_config-content host.files lawful (config_path c) (genesis_path c)
          (node_vars host name) ls u good (same (config_path c) ∙ held) updated
        ∙ rw other (same (genesis_path c) ∙ there) in
      let (config, (g, exists)) =
        write_genesis-exists c given d _ apart after
          (ap (λ (r : Result (Unit {0}) × W). r.0) (sym run) ∙ done) in
      (
        u,
        same (config_path c),
        updated,
        ap (λ (r : Result (Unit {0}) × W). content r.1 (config_path c)) run ∙ config,
        (g, ap (λ (r : Result (Unit {0}) × W). content r.1 (genesis_path c)) run ∙ exists),
      )

  pub node_vars-Covers : (name name' : Text) → Covers (node_vars host name) (node_vars host name')
  unfolding node_vars
  node_vars-Covers name name' k v (inl (e, _)) = (host.quote name', inl (e, refl))
  node_vars-Covers name name' k v (inr (inl m)) = (v, inr (inl m))
  node_vars-Covers name name' k v (inr (inr (inl m))) = (v, inr (inr (inl m)))
  node_vars-Covers name name' k v (inr (inr (inr m))) = absurd m

  pub node_vars-AreLines :
      (name : Text)
      → IsLine (assignment (lit "moniker") (host.quote name))
      → AreLines (node_vars host name)
  unfolding node_vars assignment max_token drop_cr
  node_vars-AreLines name h = (
    h,
    (
      record { one_line = omega arith; no_cr = refl; short = omega arith },
      (record { one_line = omega arith; no_cr = refl; short = omega arith }, tt),
    ),
  )
