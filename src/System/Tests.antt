-- ===== src/System/Tests.antt =====
-- One node publishes its network, and the program on another node joins it.
use bitcoinx.Base.{
  Text, lit, [], ◌∷◌, true, false, Option, none, some, Result, ok, err, external, ◌≡◌, refl, arith,
  eq_text, eq_text_iff, eq_text_refl, trim_prefix, has_prefix, List,
}
use bitcoinx.Base.Lines.{print_lines, scan_lines}
use bitcoinx.Config.{Config, manifest_path, genesis_path, config_dir, state_dir}
use bitcoinx.GoPath.{path_join}
use bitcoinx.Project.{Project, load, parse, validate}
use bitcoinx.Ports
use bitcoinx.Ports.{ports_at}
use bitcoinx.Discovery.Memory.{held_in, sandbox}
use bitcoinx.Discovery.Network.{join, fetch, fetch_image, publish, write_manifest}
use bitcoinx.Discovery.Server.{Libraries}
use bitcoinx.Discovery.Server
use bitcoinx.Node.Init.{Host, init, initialize, initialize_on, write_genesis}
use bitcoinx.Node.Update.{update_config, rewrite}
use bitcoinx.Node.Start.{Running, create_network}
use bitcoinx.Node.Start.Laws.{IsRunning}
use bitcoinx.Cmd.Launch.{
  Launch, Program, prepare_start, prepare_join, refuse_both, join_if, start_discovery, allocate,
}
use bitcoinx.Httpfs.{dir, end}
use bitcoinx.Cmd.Env.{get_cwd}
use bitcoinx.Cmd.Cli.{colors_enabled}
use bitcoinx.Cmd.Flags.{selected, starting, joining, find_flag, flag_of, declared, accepts}
use bitcoinx.Cmd.Execute.{
  Platform, run_start, run_join, first_arg, pre_run, run_command, run_selected, execute_on, execute,
}
use bitcoinx.Cmd.Execute.Parser.{
  Given, parser, resolve, parse_words, setting_of, before_equals, after_equals, subcommand_of,
}
use bitcoinx.Cmd.Execute.Parser.Laws.{parser-IsCobra}
use bitcoinx.System.CommandLine.{execute-start_network, execute-join_network}
use bitcoinx.Cmd.Samples
use bitcoinx.Cmd.Env.{base}
use bitcoinx.Cmd.Samples.{sample, yaml, free_net, idle_libraries, idle_host, idle_docker}
use bitcoinx.System.Memory.{
  World, published, eq_links, held, held_there, files_there, ipfs, stored-IsAddressed,
  ipfs-IsGateway, ipfs-IsContentStore, files_there-IsLawful,
}

abbrev config : Config
config = record {
  root_dir = lit "/home";
  ports = ports_at 52000;
  chain_id = [];
  publish_network = true;
}

abbrev project : Project
project = record { name = lit "x"; image = lit "i"; binaries = none }

abbrev temp : Option Text → Result Text
temp none = ok (lit "/new")
temp (some d) = err (external 17)

abbrev running : Running World
running = record {
  temp_file = λ w. (temp (held w (lit "/new")), w);
  run_into = λ f cmd args w. (ok tt, record w { links = (f, lit "image") ∷ w.links });
  status = λ w. (ok (lit "n"), w);
  start_server = λ c p w. (ok tt, w);
  run_group = λ id peer w. (ok tt, w);
}

abbrev here : Host World
here = idle_host (ipfs.files)

abbrev start : World
start = record { links = []; disk = Samples.disk }

temp_new :
    (w : World) (f q d : Text)
    → temp (held w (lit "/new")) ≡ ok f
    → held w q ≡ some d
    → eq_text f q ≡ false
temp_new w f q d e h = ground (arith, eq_text_iff f q)

run_into_keeps :
    (w : World) (f q d e : Text)
    → eq_text f q ≡ false
    → held w q ≡ some d
    → held_in ((f, e) ∷ w.links) q ≡ some d
unfolding held_in
run_into_keeps w f q d e ne h = rw ne h

run_into_holds : (w : World) (f e : Text) → held_in ((f, e) ∷ w.links) f ≡ some e
unfolding held_in
run_into_holds w f e = rw (eq_text_refl f) refl

running-IsRunning : IsRunning running held
running-IsRunning = record {
  temp_file-content = λ q d w h. h;
  temp_file-new = λ f q d w e h. temp_new w f q d e h;
  run_into-content = λ f cmd q d args w ne h. run_into_keeps w f q d (lit "image") ne h;
  run_into-output = λ f cmd args w h. (lit "image", run_into_holds w f (lit "image"));
}

abbrev program : Program World
program = record {
  yaml = yaml;
  net = free_net;
  libraries = idle_libraries;
  ipfs = ipfs;
  host = idle_host files_there;
  running = running;
  home = lit "/home";
}

-- The identifier that the first node gets, and the world after that.
created : (create_network here ipfs running config project start).0 ≡ ok (lit "Qm")
unfolding create_network publish held_in sandbox eq_text manifest_path genesis_path config_dir
    state_dir path_join eq_links
created = refl

manifest_held : held start (manifest_path config) ≡ some (lit "manifest")
unfolding held_in eq_text manifest_path path_join
manifest_held = refl

genesis_held : held start (genesis_path config) ≡ some (lit "genesis")
unfolding held_in eq_text genesis_path config_dir state_dir path_join
genesis_held = refl

abbrev later : World
later = record { links = published; disk = Samples.disk }

abbrev launch : Launch
launch = record {
  config = record {
    root_dir = lit "/h";
    ports = ports_at 52000;
    chain_id = lit "Qm";
    publish_network = false;
  };
  project = sample;
  genesis = some (lit "genesis");
  edit_genesis = false;
}

-- The program on the second node.
abbrev platform : Platform World
platform = record {
  program = program;
  tools = record {
    files = files_there;
    yaml = yaml;
    assets = dir none none none end;
    open_asset = λ src. ok (ok []);
    parse_template = λ name input. ok (λ ctx. ok input);
    print_tree = λ p ignore w. (ok tt, w);
    docker = idle_docker;
    strip = λ t. t;
    widths = λ i. record { at_test = 80; at_bar = 80 };
    quote = λ t. t;
    gopath = lit "/go";
    home = lit "/home";
  };
  shell = record { capture = λ cmd args w. (ok [], w); run = λ cmd args w. (ok tt, w) };
  getwd = λ w. (ok (lit "/h"), w);
  abs = λ path w. (ok path, w);
  is_terminal = true;
  disable = λ off w. w;
  print_error = λ x w. w;
  print_help = λ line w. w;
}

-- `bitcoinx start --cwd=/h --join=Qm` and `bitcoinx join Qm`
abbrev start_line : List Text
start_line = lit "start" ∷ lit "--cwd=/h" ∷ lit "--join=Qm" ∷ []

abbrev start_given : Given
start_given = record {
  command = starting;
  settings = (lit "cwd", lit "/h") ∷ (lit "join", lit "Qm") ∷ [];
}

abbrev join_line : List Text
join_line = lit "join" ∷ lit "Qm" ∷ []

abbrev join_given : Given
join_given = record { command = joining; settings = [] }

start_selected : resolve start_line ≡ selected starting [] start_given
unfolding resolve subcommand_of parse_words before_equals after_equals eq_text has_prefix
    trim_prefix flag_of find_flag declared accepts
start_selected = refl

join_selected : resolve join_line ≡ selected joining (lit "Qm" ∷ []) join_given
unfolding resolve subcommand_of parse_words eq_text has_prefix trim_prefix declared accepts
join_selected = refl

join_got : parser.get_string start_given (lit "join") ≡ ok (lit "Qm")
unfolding flag_of find_flag declared setting_of eq_text
join_got = refl

prepared : (execute platform parser start_line later).0 ≡ ok (some launch)
unfolding execute execute_on resolve subcommand_of parse_words before_equals after_equals has_prefix
    flag_of find_flag declared accepts run_selected pre_run run_command run_start get_cwd setting_of
    colors_enabled prepare_start load parse validate refuse_both allocate Ports.allocate_ports
    Ports.port_range_available Ports.port_available start_discovery Server.start
    Server.init_if_needed Server.refuse_if join_if join fetch fetch_image eq_links held_in eq_text
    path_join trim_prefix
prepared = refl

started :
    (init program.host launch.config launch.project launch.genesis launch.edit_genesis later).0
    ≡ ok tt
unfolding init initialize initialize_on update_config rewrite write_genesis scan_lines print_lines
started = refl

execute-start_network_example :
    held_there
      (init program.host launch.config launch.project launch.genesis launch.edit_genesis later).1
      (genesis_path launch.config)
    ≡ some (lit "genesis")
execute-start_network_example =
    execute-start_network here ipfs running ipfs-IsContentStore running-IsRunning stored-IsAddressed
      ipfs-IsGateway platform ipfs-IsGateway parser parser-IsCobra files_there-IsLawful config
      project (lit "manifest") (lit "genesis") (lit "Qm") start_line [] start_given start later
      later launch refl manifest_held genesis_held created start_selected join_got prepared started

abbrev joined : Launch
joined = record {
  config = record {
    root_dir = lit "/home/.bitcoinx/networks/Qm";
    ports = ports_at 52000;
    chain_id = lit "Qm";
    publish_network = false;
  };
  project = sample;
  genesis = some (lit "genesis");
  edit_genesis = false;
}

prepared_join : (execute platform parser join_line later).0 ≡ ok (some joined)
unfolding execute execute_on resolve subcommand_of parse_words has_prefix declared accepts
    run_selected pre_run run_command run_join first_arg setting_of colors_enabled prepare_join parse
    validate allocate Ports.allocate_ports Ports.port_range_available Ports.port_available
    start_discovery Server.start Server.init_if_needed Server.refuse_if join fetch fetch_image
    eq_links held_in eq_text path_join write_manifest trim_prefix base
prepared_join = refl

execute-join_network_example :
    (joined.genesis ≡ some (lit "genesis"))
    × (parse yaml (lit "manifest") ≡ ok joined.project)
    × (joined.config.publish_network ≡ false)
execute-join_network_example =
    execute-join_network here ipfs running ipfs-IsContentStore running-IsRunning stored-IsAddressed
      ipfs-IsGateway platform ipfs-IsGateway parser parser-IsCobra config project (lit "manifest")
      (lit "genesis") (lit "Qm") join_line join_given start later joined manifest_held genesis_held
      created join_selected prepared_join
