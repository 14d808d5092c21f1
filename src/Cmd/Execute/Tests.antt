-- ===== src/Cmd/Execute/Tests.antt =====
-- Lines that are run in memory, with the small parser.
use bitcoinx.Base.{
  if◌then◌else◌, Text, lit, List, [], ◌∷◌, Bool, true, false, none, some, ok, err, not_exist, ◌>>◌,
  ◌≡◌, refl, eq_text, has_prefix, trim_prefix,
}
use bitcoinx.Files.Memory.{Memory, memory}
use bitcoinx.Ports
use bitcoinx.Ports.{ports_at}
use bitcoinx.Project.{load, parse, validate}
use bitcoinx.Discovery.Server
use bitcoinx.Httpfs.{dir, end}
use bitcoinx.Cmd.Env.{get_cwd}
use bitcoinx.Cmd.Create.{Tools}
use bitcoinx.Cmd.Cli.{Shell, colors_enabled}
use bitcoinx.Cmd.Launch.{
  Launch, Program, prepare_start, refuse_both, join_if, start_discovery, allocate,
}
use bitcoinx.Cmd.Launch.Laws.{Founds}
use bitcoinx.Cmd.Samples.{sample, yaml, disk, free_net, idle_libraries, idle_host, idle_docker}
use bitcoinx.Cmd.Execute.Parser.Laws.{parser-IsCobra}
use bitcoinx.Cmd.Execute.Parser.{Given}
use bitcoinx.Cmd.Flags.{selected, starting, calling, find_flag, flag_of, declared, accepts}
use bitcoinx.Cmd.Execute.{
  Platform, set_colors, run_start, pre_run, run_command, run_selected, execute_on, execute,
}
use bitcoinx.Cmd.Execute.Typed.{Typed, call_in, perform}
use bitcoinx.Cmd.Execute.Laws.{execute-cli, start-Founds}
use bitcoinx.Cmd.Execute.Parser.{
  parser, resolve, parse_words, setting_of, before_equals, after_equals, subcommand_of,
}

abbrev tools : Tools Memory
tools = record {
  files = memory;
  yaml = yaml;
  assets = dir none none none end;
  open_asset = λ src. ok (ok []);
  parse_template = λ name input. ok (λ ctx. ok input);
  print_tree = λ p ignore w. (ok tt, w);
  docker = idle_docker;
  strip = λ s. s;
  widths = λ i. record { at_test = 80; at_bar = 80 };
  quote = λ s. s;
  gopath = lit "/go";
  home = lit "/home";
}

abbrev program : Program Memory
program = record {
  yaml = yaml;
  net = free_net;
  libraries = idle_libraries;
  ipfs = record {
    Handle = Text;
    files = memory;
    temp_dir = λ w. (ok (lit "/tmp"), w);
    serial_file = λ p w. (ok tt, w);
    add = λ d w. (ok (lit "Qm"), w);
    parse_path = λ p. ok p;
    get = λ p w. (err not_exist, w);
    read_all = λ h w. (ok h, w);
  };
  host = idle_host memory;
  running = record {
    temp_file = λ w. (ok (lit "/new"), w);
    run_into = λ f cmd args w. (ok tt, w);
    status = λ w. (ok (lit "n"), w);
    start_server = λ c p w. (ok tt, w);
    run_group = λ id peer w. (ok tt, w);
  };
  home = lit "/home";
}

abbrev shell : Shell Memory
shell = record { capture = λ cmd args w. (ok (lit "abc\n"), w); run = λ cmd args w. (ok tt, w) }

abbrev platform : Platform Memory
platform = record {
  program = program;
  tools = tools;
  shell = shell;
  getwd = λ w. (ok (lit "/here"), w);
  abs = λ p w. (ok (if eq_text p (lit ".") then lit "/here" else p), w);
  is_terminal = true;
  disable = λ off w. w;
  print_error = λ e w. w;
  print_help = λ line w. w;
}

-- `bitcoinx start --cwd=/h`
abbrev start_line : List Text
start_line = lit "start" ∷ lit "--cwd=/h" ∷ []

abbrev starting_flags : Given
starting_flags = record { command = starting; settings = (lit "cwd", lit "/h") ∷ [] }

start_selected : resolve start_line ≡ selected starting [] starting_flags
unfolding resolve subcommand_of parse_words before_equals after_equals eq_text has_prefix
    trim_prefix flag_of find_flag declared accepts
start_selected = refl

abbrev no_color_given : Bool
no_color_given = parser.changed starting_flags (lit "no-color")

-- `bitcoinx cli --cwd=/h status`
abbrev words : List Text
words = lit "--cwd=/h" ∷ lit "status" ∷ []

abbrev calling_flags : Given
calling_flags = record { command = calling; settings = [] }

cli_selected : resolve (lit "cli" ∷ words) ≡ selected calling words calling_flags
unfolding resolve subcommand_of eq_text
cli_selected = refl

execute-cli_example :
    execute platform parser (lit "cli" ∷ words) disk
    ≡ (set_colors platform true >> perform platform (call_in (lit ".") words)) disk
execute-cli_example =
    execute-cli platform parser parser-IsCobra words words calling_flags disk cli_selected

abbrev launch : Launch
launch = record {
  config = record {
    root_dir = lit "/h";
    ports = ports_at 52000;
    chain_id = [];
    publish_network = true;
  };
  project = sample;
  genesis = none;
  edit_genesis = false;
}

not_joining : parser.changed starting_flags (lit "join") ≡ false
unfolding setting_of eq_text
not_joining = refl

launched : (execute platform parser start_line disk).0 ≡ ok (some launch)
unfolding execute execute_on resolve subcommand_of parse_words before_equals after_equals eq_text
    has_prefix trim_prefix flag_of find_flag declared accepts run_selected pre_run run_command
    run_start get_cwd setting_of prepare_start load parse validate refuse_both allocate
    Ports.allocate_ports Ports.port_range_available Ports.port_available start_discovery
    Server.start Server.init_if_needed Server.refuse_if join_if colors_enabled
launched = refl

start-Founds_example : (launch.config.chain_id ≡ []) × Founds program launch
start-Founds_example =
    start-Founds platform parser parser-IsCobra start_line [] starting_flags disk launch
      start_selected not_joining launched
