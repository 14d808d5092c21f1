-- ===== src/Cmd/Execute/Laws.antt =====
-- That the commands are run on values of the right types, and what follows from the defaults.
use bitcoinx.Base.{
  ◌≡◌, ◌⊎◌, inl, inr, not, if◌then◌else◌, Text, lit, List, [], ◌∷◌, Bool, true, false, Option, some,
  Result, ok, refl, ap, sym, ◌∙◌, arith, Eff, ◌>>◌, >>=-inv, is_empty, eq_text,
}
use bitcoinx.Cmd.Env.{get_cwd}
use bitcoinx.Cmd.Launch.{Launch, prepare_start, prepare_join}
use bitcoinx.Cmd.Launch.Laws.{Founds, Joins, prepare_start-cases}
use bitcoinx.Cmd.Cli.{colors_enabled}
use bitcoinx.Cmd.Flags.{
  Cobra, IsCobra, selected, Subcommand, creating, starting, joining, building, calling, string,
  boolean, declared, find_flag, flag_of, first_word,
}
use bitcoinx.Cmd.Execute.Typed.{
  Typed, call_in, perform, Reads, reads_start, reads_join, reads_cli, run_command-perform,
  selected-Reads,
}
use bitcoinx.Cmd.Execute.{
  Platform, set_colors, pre_run, run_command, run_selected, execute_on, execute,
}

module _ {W : Type 0} (platform : Platform W) (cobra : Cobra) (lawful : IsCobra cobra) where
  open platform use {program, getwd, abs}
  open cobra use {Flags, resolve, get_string, get_bool, changed}

  no_color_declared : (s : Subcommand) → flag_of s (lit "no-color") ≡ some (boolean false)
  unfolding flag_of find_flag declared eq_text
  no_color_declared creating = refl
  no_color_declared starting = refl
  no_color_declared joining = refl
  no_color_declared building = refl
  no_color_declared calling = refl

  pre_run-colors :
      {A : Type 0} (given b : Bool) (m : Eff W A) (w : W)
      → (pre_run platform given (ok b) >> m) w
        ≡ (set_colors platform (if given then not b else platform.is_terminal) >> m) w
  unfolding pre_run colors_enabled
  pre_run-colors true b m w = refl
  pre_run-colors false b m w = refl

  pub execute-perform :
      (line : List Text) (s : Subcommand) (args : List Text) (flags : Flags) (w : W)
      → resolve line ≡ selected s args flags
      → (no_color : Bool) × (c : Typed) × Reads platform cobra flags s args c
        × (get_bool flags (lit "no-color") ≡ ok no_color)
        × (execute platform cobra line w
            ≡ (set_colors platform
                    (if changed flags (lit "no-color") then not no_color else platform.is_terminal)
                  >> perform platform c)
                w)
  unfolding execute execute_on run_selected
  execute-perform line s args flags w e =
      let (c, r) = selected-Reads platform cobra lawful line s args flags e in
      let (b, g) =
        lawful.got_bool line s args flags (lit "no-color") false e (no_color_declared s) in
      (
        b,
        c,
        r,
        g,
        ap (λ o. execute_on platform cobra line o w) e
            ∙ ap
                (λ f.
                  (pre_run platform (changed flags (lit "no-color")) f
                      >> run_command platform cobra s flags args)
                    w)
                g
            ∙ pre_run-colors (changed flags (lit "no-color")) b
                (run_command platform cobra s flags args) w
            ∙ ap
                (λ m.
                  (set_colors platform
                        (if changed flags (lit "no-color") then not b else platform.is_terminal)
                      >> m)
                    w)
                (run_command-perform platform cobra flags s args c r),
      )

  -- With cobra as its documentation says: an accepted line that begins with `cli` runs the
  -- application's client with all that follows `cli` as its arguments, and for the directory `.`.
  -- The flag --cwd, which the command declares, and --no-color have no effect where they are given
  -- there, because the parsing of flags is disabled.
  pub execute-cli :
      (rest args : List Text) (flags : Flags) (w : W)
      → resolve (lit "cli" ∷ rest) ≡ selected calling args flags
      → execute platform cobra (lit "cli" ∷ rest) w
        ≡ (set_colors platform (platform.is_terminal) >> perform platform (call_in (lit ".") rest))
            w
  unfolding flag_of find_flag declared eq_text first_word execute execute_on run_selected pre_run
      colors_enabled
  execute-cli rest args flags w e =
      let line = lit "cli" ∷ rest in
      let d =
        lawful.default_string line calling args flags (lit "cwd") (lit ".") e refl
          (lawful.unparsed line calling args flags (lit "cwd") e refl) in
      ap (λ o. execute_on platform cobra line o w) e
      ∙ ap
          (λ g.
            (pre_run platform g (get_bool flags (lit "no-color"))
                >> run_command platform cobra calling flags args)
              w)
          (lawful.unparsed line calling args flags (lit "no-color") e refl)
      ∙ ap (λ m. (set_colors platform (platform.is_terminal) >> m) w)
          (run_command-perform platform cobra flags calling args (call_in (lit ".") args)
            (reads_cli (lit ".") args d))
      ∙ ap
          (λ l.
            (set_colors platform (platform.is_terminal) >> perform platform (call_in (lit ".") l))
              w)
          (lawful.verbatim rest calling args flags refl e)

  join_declared : flag_of starting (lit "join") ≡ some (string [])
  unfolding flag_of find_flag declared eq_text
  join_declared = refl

  -- A line that gave a result has run its typed command.
  pub execute-inv :
      (line : List Text) (s : Subcommand) (args : List Text) (flags : Flags) (w : W)
      {r : Option Launch}
      → resolve line ≡ selected s args flags
      → (execute platform cobra line w).0 ≡ ok r
      → (c : Typed) × Reads platform cobra flags s args c
        × (v : W) × ((perform platform c v).0 ≡ ok r)
  execute-inv line s args flags w e h =
      let (b, c, r, g, q) = execute-perform line s args flags w e in
      let w' =
        (set_colors platform
          (if changed flags (lit "no-color") then not b else platform.is_terminal) w).1 in
      (c, r, w', ap (λ (x : Result (Option Launch) × W). x.0) (sym q) ∙ h)

  launched : (x y : Launch) → ok (some x) ≡ ok (some y) → ok x ≡ ok y
  launched x y q = cc

  -- What a start that started a node was given, and the state in which it was.
  pub start-inv :
      (flags : Flags) (args : List Text) (c : Typed) (w : W) (l : Launch)
      → Reads platform cobra flags starting args c
      → (perform platform c w).0 ≡ ok (some l)
      → (root chain_id : Text) × (edit : Bool) × (w' : W) × (get_string flags (lit "join")
          ≡ ok chain_id)
        × ((prepare_start program root (ok chain_id) (ok edit) w').0 ≡ ok l)
  unfolding perform
  start-inv flags _ _ w l (reads_start cwd chain_id edit g j b) h =
      let (root, w1, _, h1, _) = >>=-inv (get_cwd (ok cwd) getwd abs) _ w h in
      let (l', w2, e2, h2, _) =
        >>=-inv (prepare_start program root (ok chain_id) (ok edit)) _ w1 h1 in
      (root, chain_id, edit, w1, j, ap (λ (x : Result Launch × W). x.0) e2 ∙ launched l' l h2)

  -- The same for `join`, which has one argument.
  pub join-inv :
      (flags : Flags) (chain_id : Text) (c : Typed) (w : W) (l : Launch)
      → Reads platform cobra flags joining (chain_id ∷ []) c
      → (perform platform c w).0 ≡ ok (some l)
      → (prepare_join program chain_id w).0 ≡ ok l
  unfolding perform
  join-inv flags _ _ w l (reads_join chain_id) h =
      let (l', w1, e1, h1, _) = >>=-inv (prepare_join program chain_id) _ w h in
      ap (λ (x : Result Launch × W). x.0) e1 ∙ launched l' l h1

  -- With cobra as its documentation says: an accepted line `start` without --join, when it gets as
  -- far as starting a node, starts one for a network of its own: it has no identifier of a network
  -- to join, publishes its own, and brings no genesis file.
  pub start-Founds :
      (line args : List Text) (flags : Flags) (w : W) (l : Launch)
      → resolve line ≡ selected starting args flags
      → changed flags (lit "join") ≡ false
      → (execute platform cobra line w).0 ≡ ok (some l)
      → (l.config.chain_id ≡ []) × Founds program l
  start-Founds line args flags w l e u h =
      let (c, r, w', k) = execute-inv line starting args flags w e h in
      let (root, chain_id, edit, v, j, p) = start-inv flags args c w' l r k in
      let d = lawful.default_string line starting args flags (lit "join") [] e join_declared u in
      own chain_id l (no_id chain_id (sym j ∙ d))
        (prepare_start-cases program root chain_id (ok edit) v l p)
    where
      no_id : (chain_id : Text) → ok chain_id ≡ ok [] → chain_id ≡ []
      no_id chain_id q = cc

      own :
          (chain_id : Text) (l : Launch)
          → chain_id ≡ []
          → (l.config.chain_id ≡ chain_id)
            × (((is_empty chain_id ≡ true) × Founds program l)
                ⊎ ((is_empty chain_id ≡ false) × Joins program chain_id l))
          → (l.config.chain_id ≡ []) × Founds program l
      own chain_id l q (i, inl (_, f)) = (i ∙ q, f)
      own chain_id l q (i, inr (f, _)) = absurd (ground (arith, q, f))
