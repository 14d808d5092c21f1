-- ===== src/Cmd/Samples.antt =====
-- A project, and a disk in memory that holds it, on which the commands are run.
use bitcoinx.Base.{lit, [], ◌∷◌, true, false, some, ok}
use bitcoinx.Base.Lines.{print_lines}
use bitcoinx.Files.{Files}
use bitcoinx.Ports.{Net}
use bitcoinx.Builder.Build.{DockerBuild}
use bitcoinx.Discovery.Server.{Libraries}
use bitcoinx.Node.Init.{Host, keep}
use bitcoinx.Files.Memory.{Memory}
use bitcoinx.Project.{Project, Yaml}

abbrev pub sample : Project
sample = record {
  name = lit "chain";
  image = lit "image";
  binaries = some (record { cli = lit "cli"; daemon = lit "d" });
}

abbrev pub yaml : Yaml
yaml = record { marshal = λ p. ok (lit "m"); decode = λ m. ok sample }

-- A client's command.
abbrev pub disk : Memory
disk path = some (print_lines (lit "addr = \"u\"" ∷ lit "[p2p]" ∷ []))

-- Every port is free.
abbrev pub free_net : {W : Type 0} → Net W
free_net = record {
  listen = λ p w. (true, w);
  close_listener = λ p w. w;
  dial = λ p w. (false, w);
  close_connection = λ p w. w;
}

-- Libraries whose calls succeed.
abbrev pub idle_libraries : {W : Type 0} → Libraries W
idle_libraries = record {
  locked = λ r w. (ok false, w);
  load_plugins = λ r w. (ok tt, w);
  is_initialized = λ r w. true;
  default_config = λ w. (ok (record { api = []; gateway = []; swarm = [] }), w);
  init_repo = λ r a w. (ok tt, w);
  open_repo = λ r w. (ok tt, w);
  set_swarm = λ r addrs w. (ok tt, w);
  new_node = λ w. (ok tt, w);
  new_dht = λ w. (ok tt, w);
  parse_addr = λ a. ok a;
  connect = λ i w. (ok tt, w);
  wait_connected = λ w. (ok tt, w);
  decode_cid = λ c. ok c;
  set_handler = λ t w. (ok tt, w);
  provide = λ c w. (ok tt, w);
  find_providers = λ c w. (ok [], w);
  close_node = λ w. (ok tt, w);
  own_id = lit "a";
  encode = λ p. p.node_id;
  quote = λ s. s;
}

-- A host on which commands succeed and nothing is edited.
abbrev pub idle_host : {W : Type 0} → Files W → Host W
idle_host files = record {
  files = files;
  run = λ cmd args w. (ok tt, w);
  hostname = λ w. (ok (lit "h"), w);
  current_user = λ w. (ok (lit "1", lit "1"), w);
  editor = λ w. [];
  ask = λ w. (ok keep, w);
  print_tree = λ p ignore w. (ok tt, w);
  quote = λ s. s;
}

-- A build that succeeds at once.
abbrev pub idle_docker : {W : Type 0} → DockerBuild W
idle_docker = record {
  stdout_pipe = λ w. (ok tt, w);
  stderr_pipe = λ w. (ok tt, w);
  start = λ args w. (ok tt, w);
  wait = λ w. (ok tt, w);
  output = λ w. [];
  temp_file = λ w. (ok (lit "/tmp/log"), w);
  write = λ f t w. (ok tt, w);
  show_log = λ f w. w;
  show_success = λ w. w;
}
