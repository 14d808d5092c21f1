-- ===== src/Cmd/Scenarios.antt =====
-- A start that joins a network, in memory.
use bitcoinx.Base.{Text, lit, [], false, Option, none, some, Result, ok, err, not_exist, ◌≡◌, refl}
use bitcoinx.Base.Lines.{print_lines, scan_lines}
use bitcoinx.Files.Memory.{Memory, memory}
use bitcoinx.Project.{load, parse, validate}
use bitcoinx.Ports
use bitcoinx.Ports.{Net, ports_at}
use bitcoinx.Discovery.Network.{Ipfs, join, fetch, fetch_image}
use bitcoinx.Discovery.Server.{Libraries}
use bitcoinx.Discovery.Server
use bitcoinx.Node.Init.{init, initialize, initialize_on, write_genesis}
use bitcoinx.Node.Update.{update_config, rewrite}
use bitcoinx.Cmd.Launch.{
  Launch, Program, prepare_start, refuse_both, join_if, start_discovery, allocate,
}
use bitcoinx.Cmd.Samples.{sample, yaml, disk, free_net, idle_libraries, idle_host}

-- A start that joins a network.
abbrev opened : Option Text → Memory → Result Text × Memory
opened none w = (err not_exist, w)
opened (some p) w = elim (w p) [ none ↦ (err not_exist, w) | some d ↦ (ok d, w) ]

abbrev ipfs : Ipfs Memory
ipfs = record {
  Handle = Text;
  files = memory;
  temp_dir = λ w. (ok (lit "/tmp"), w);
  serial_file = λ p w. (ok tt, w);
  add = λ dir w. (ok (lit "Qm"), w);
  parse_path = λ p. ok p;
  get = opened;
  read_all = λ h w. (ok h, w);
}

abbrev program : Program Memory
program = record {
  yaml = yaml;
  net = free_net;
  libraries = idle_libraries;
  ipfs = ipfs;
  host = idle_host memory;
  running = record {
    temp_file = λ w. (ok (lit "/new"), w);
    run_into = λ f cmd args w. (ok tt, w);
    status = λ w. (ok (lit "n"), w);
    start_server = λ c p w. (ok tt, w);
    run_group = λ id peer w. (ok tt, w);
  };
  home = lit "/home";
}

abbrev launch : Launch
launch = record {
  config = record {
    root_dir = lit "/h";
    ports = ports_at 52000;
    chain_id = lit "Qm";
    publish_network = false;
  };
  project = sample;
  genesis = disk [];
  edit_genesis = false;
}

prepared : (prepare_start program (lit "/h") (ok (lit "Qm")) (ok false) disk).0 ≡ ok launch
unfolding prepare_start load parse validate refuse_both allocate Ports.allocate_ports
    Ports.port_range_available Ports.port_available start_discovery Server.start
    Server.init_if_needed Server.refuse_if join_if join fetch fetch_image
prepared = refl

started :
    (init (idle_host memory) launch.config launch.project launch.genesis launch.edit_genesis disk).0
    ≡ ok tt
unfolding init initialize initialize_on update_config rewrite write_genesis scan_lines print_lines
started = refl
