-- ===== src/Cmd/Cli/Laws.antt =====
-- Which container a client's command runs in.
use bitcoinx.Base.{
  Text, lit, List, [], ◌∷◌, ◌++◌, Option, none, some, ok, ◌≡◌, refl, ◌∙◌, ap, arith, Lacks,
  split_at-append, >>=-ok, inl, inr, Result-cases,
}
use bitcoinx.Files.{Files}
use bitcoinx.GoPath.{path_join}
use bitcoinx.Project.{Project, Binaries, Yaml, load, parse, manifest_file}
use bitcoinx.Project.Laws.{HasBinaries, parse_iff}
use bitcoinx.Cmd.Env.{or_fatal}
use bitcoinx.Cmd.Env.Laws.{or_fatal_ok}
use bitcoinx.Cmd.Cli.{
  Shell, container_args, first_line, exec_args, get_container_id, cli_in, cli, cli_command,
}

first_line-line : (id rest : Text) → Lacks 10 id → first_line (id ++ 10 ∷ rest) ≡ id
unfolding first_line
first_line-line id rest h = rw (split_at-append 10 id rest h, first_line) refl

module _ {W : Type 0} (yaml : Yaml) (files : Files W) where
  load-parsed :
      (root : Text) (w w1 : W) (p : Project)
      → load yaml files root w ≡ (ok p, w1)
      → (m : Text) × (parse yaml m ≡ ok p)
  unfolding load
  load-parsed root w w1 p h =
      elim (Result-cases (files.read (path_join (root ∷ manifest_file ∷ [])) w).0) [
        | inl (m, e) ↦ (m, ground arith)
        | inr (x, e) ↦ absurd (ground arith)
      ]

  -- What was loaded names its binaries.
  load-binaries :
      (root : Text) (w w1 : W) (p : Project)
      → load yaml files root w ≡ (ok p, w1)
      → (b : Binaries) × (p.binaries ≡ some b)
  load-binaries root w w1 p h =
      let (m, e) = load-parsed root w w1 p h in
      given p.binaries (((parse_iff yaml m p).0 e).1.binaries)
    where
      given : (o : Option Binaries) → HasBinaries o → (b : Binaries) × (o ≡ some b)
      given none k = absurd k
      given (some b) k = (b, refl)

  -- When the project was loaded and Docker, asked for the running containers that carry the daemon's
  -- label and that of the project's name, lists some: the project has a client, so the command does
  -- not panic, and it runs `docker exec -it` with the first of these containers, the client and all
  -- arguments that were given, in their order.
  pub cli_command-exec :
      (shell : Shell W) (root id rest : Text) (args : List Text) (p : Project) (w w1 w2 : W)
      → load yaml files root w ≡ (ok p, w1)
      → shell.capture
          (lit "docker")
          (lit "ps"
            ∷ lit "-q"
            ∷ lit "-f"
            ∷ lit "label=chainkit.cosmos.daemon"
            ∷ lit "-f"
            ∷ (lit "label=chainkit.project=" ++ p.name)
            ∷ [])
          w1
        ≡ (ok (id ++ 10 ∷ rest), w2)
      → Lacks 10 id
      → (b : Binaries) × (p.binaries ≡ some b)
        × (cli_command shell yaml files root args w
            ≡ or_fatal (shell.run (lit "docker") (lit "exec" ∷ lit "-it" ∷ id ∷ b.cli ∷ args)) w2)
  unfolding cli_command cli get_container_id cli_in container_args exec_args
  cli_command-exec shell root id rest args p w w1 w2 loaded listed line =
      let (b, e) = load-binaries root w w1 p loaded in
      (
        b,
        e,
        >>=-ok (or_fatal (load yaml files root)) (λ p. cli shell p args)
              (or_fatal_ok (load yaml files root) w w1 loaded)
            ∙ >>=-ok (get_container_id shell p) (λ id. cli_in shell p.binaries id args)
                (>>=-ok (or_fatal (shell.capture (lit "docker") (container_args p))) _
                    (or_fatal_ok (shell.capture (lit "docker") (container_args p)) w1 w2 listed)
                  ∙ ap (λ (t : Text). (ok t, w2)) (first_line-line id rest line))
            ∙ ap (λ (o : Option Binaries). cli_in shell o id args w2) e,
      )
