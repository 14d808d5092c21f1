-- ===== src/Node/Start/Tests.antt =====
-- The creation of a network, in memory.
use bitcoinx.Base.{
  Text, lit, [], ◌∷◌, true, false, Option, none, some, Result, ok, err, external, cancelled, ◌≡◌,
  refl, arith, eq_text, eq_text_iff, eq_text_refl,
}
use bitcoinx.Config.{Config, manifest_path, genesis_path, config_dir, state_dir}
use bitcoinx.Project.{Project}
use bitcoinx.Ports.{ports_at}
use bitcoinx.GoPath.{path_join}
use bitcoinx.Discovery.Memory.{World, held, held_in, ipfs, sandbox}
use bitcoinx.Discovery.Network.{publish}
use bitcoinx.Node.Init.{Host, keep}
use bitcoinx.Node.Start.{Running, create_network}
use bitcoinx.Node.Start.Laws.{IsRunning}

-- A node that creates a network in memory.
abbrev config : Config
config = record {
  root_dir = lit "/home";
  ports = ports_at 52000;
  chain_id = [];
  publish_network = true;
}

abbrev project : Project
project = record { name = lit "x"; image = lit "i"; binaries = none }

abbrev temp : Option Text → Result Text
temp none = ok (lit "/new")
temp (some d) = err (external 17)

abbrev running : Running World
running = record {
  temp_file = λ w. (temp (held w (lit "/new")), w);
  run_into = λ f cmd args w. (ok tt, record w { links = (f, lit "image") ∷ w.links });
  status = λ w. (ok (lit "n"), w);
  start_server = λ c p w. (ok tt, w);
  run_group = λ id peer w. (err cancelled, w);
}

abbrev host : Host World
host = record {
  files = ipfs.files;
  run = λ cmd args w. (ok tt, w);
  hostname = λ w. (ok (lit "h"), w);
  current_user = λ w. (ok (lit "1", lit "1"), w);
  editor = λ w. [];
  ask = λ w. (ok keep, w);
  print_tree = λ p ignore w. (ok tt, w);
  quote = λ s. s;
}

abbrev nothing_linked : World
nothing_linked = record { links = []; stored = λ p. none }

temp_new :
    (w : World) (f q d : Text)
    → temp (held w (lit "/new")) ≡ ok f
    → held w q ≡ some d
    → eq_text f q ≡ false
temp_new w f q d e h = ground (arith, eq_text_iff f q)

run_into_keeps :
    (w : World) (f q d e : Text)
    → eq_text f q ≡ false
    → held w q ≡ some d
    → held_in ((f, e) ∷ w.links) q ≡ some d
unfolding held_in
run_into_keeps w f q d e ne h = rw ne h

run_into_holds : (w : World) (f e : Text) → held_in ((f, e) ∷ w.links) f ≡ some e
unfolding held_in
run_into_holds w f e = rw (eq_text_refl f) refl

running-IsRunning : IsRunning running held
running-IsRunning = record {
  temp_file-content = λ q d w h. h;
  temp_file-new = λ f q d w e h. temp_new w f q d e h;
  run_into-content = λ f cmd q d args w ne h. run_into_keeps w f q d (lit "image") ne h;
  run_into-output = λ f cmd args w h. (lit "image", run_into_holds w f (lit "image"));
}

created : (create_network host ipfs running config project nothing_linked).0 ≡ ok (lit "Qm")
unfolding create_network publish held_in sandbox eq_text manifest_path genesis_path config_dir
    state_dir path_join
created = refl

manifest_held : held nothing_linked (manifest_path config) ≡ some (lit "manifest")
unfolding held_in eq_text manifest_path path_join
manifest_held = refl

genesis_held : held nothing_linked (genesis_path config) ≡ some (lit "genesis")
unfolding held_in eq_text genesis_path config_dir state_dir path_join
genesis_held = refl

abbrev after : World
after = (create_network host ipfs running config project nothing_linked).1
