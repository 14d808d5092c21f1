-- ===== src/Builder/Build.antt =====
-- builder/builder.go: one run of `docker build`. The process, its pipes and the log file are a
-- parameter; what the parser shows meanwhile is the matter of the module `Parser`.
use bitcoinx.Base.{
  ℕ, Text, lit, List, [], ◌∷◌, ◌++◌, if◌then◌else◌, Eff, Result, ok, err, none, Error, ◌>>=◌, ◌>>◌,
  ◌≡◌, arith,
}
use bitcoinx.Builder.Parser.{BuildOpts, Widths, parse, Parser}

-- The calls of `Build` on the command and on the log file. `output` is the buffer behind the tee,
-- `show` stands for the final message on success.
pub record DockerBuild (W : Type 0) : Type 0 where
  pub stdout_pipe : Eff W (Unit {0})
  pub stderr_pipe : Eff W (Unit {0})
  pub start : List Text → Eff W (Unit {0})
  pub wait : Eff W (Unit {0})
  pub output : W → Text
  pub temp_file : Eff W Text
  pub write : Text → Text → Eff W (Unit {0})
  pub show_log : Text → W → W
  pub show_success : W → W

pub record Builder : Type 0 where
  pub root_dir : Text
  pub image : Text
  pub parser : Parser

abbrev pub new : Text → Text → Builder
new root image = record { root_dir = root; image = image; parser = record { progress = none } }

unfoldable pub build_args : Builder → BuildOpts → List Text
build_args b opts =
    (lit "build" ∷ lit "-t" ∷ b.image ∷ [])
    ++ ((if opts.no_cache then lit "--no-cache" ∷ [] else []) ++ b.root_dir ∷ [])

module _ {W : Type 0} (docker : DockerBuild W) where
  unfoldable pub build_log : Text → Eff W (Unit {0})
  build_log output = do
    name ← docker.temp_file
    docker.write name output
    λ w. (ok tt, docker.show_log name w)

  -- A call whose error is dropped.
  abbrev ignoring : Eff W (Unit {0}) → W → W
  ignoring m w = (m w).1

  -- What follows a failure: the log is written, and the failure is returned.
  unfoldable pub failed : Error → W → Result (Unit {0}) × W
  failed e w = (err e, ignoring (build_log (docker.output w)) w)

module _ {W : Type 0} (docker : DockerBuild W) (strip : Text → Text) (widths : ℕ → Widths) where
  unfoldable pub finish : Result (Unit {0}) → W → Result (Unit {0}) × W
  finish (ok _) w = (ok tt, docker.show_success w)
  finish (err e) w = failed docker e w

  unfoldable pub after_wait : BuildOpts → Builder → Result (Unit {0}) → W → Result (Unit {0}) × W
  after_wait opts b (ok _) w = finish (parse strip widths opts (docker.output w) b.parser).0 w
  after_wait opts b (err e) w = failed docker e w

  unfoldable pub build : Builder → BuildOpts → Eff W (Unit {0})
  build b opts = do
    docker.stdout_pipe
    docker.stderr_pipe
    docker.start (build_args b opts)
    λ w. let (result, w') = docker.wait w in after_wait opts b result w'

  -- Once the command was started, the build succeeds exactly when the command does, with its error
  -- if not, whatever the parser saw and whether or not the log could be written.
  pub build-wait :
      (b : Builder) (opts : BuildOpts) (w w1 w2 w3 : W)
      → docker.stdout_pipe w ≡ (ok tt, w1)
      → docker.stderr_pipe w1 ≡ (ok tt, w2)
      → docker.start (build_args b opts) w2 ≡ (ok tt, w3)
      → (build b opts w).0 ≡ (docker.wait w3).0
  unfolding build failed parse after_wait finish
  build-wait b opts w w1 w2 w3 h1 h2 h3 = ground arith
