-- ===== src/Node/Init/Tests.antt =====
-- A node that is started twice, between which its host gets another name.
use bitcoinx.Base.{
  Text, lit, List, [], ◌∷◌, true, false, Option, none, some, ok, ◌≡◌, refl, arith, eq_text,
  if◌then◌else◌, All, Bool-cases, inl, inr, subst,
}
use bitcoinx.Base.Lines.{IsLine, print_lines, scan_lines, max_token, drop_cr}
use bitcoinx.Config.{Config, config_path, genesis_path, config_dir, state_dir}
use bitcoinx.Ports.{ports_at}
use bitcoinx.Project.{Project}
use bitcoinx.GoPath.{path_join}
use bitcoinx.GoPath.Laws.{IsName, absolute}
use bitcoinx.Files.Memory.{Memory, memory, held, memory-IsLawful}
use bitcoinx.Node.Update.{update_config, rewrite, update_line, matches, assignment}
use bitcoinx.Node.Init.{Host, keep, init, initialize, initialize_on, write_genesis, node_vars}
use bitcoinx.Node.Init.Once.{IsQuiet}
use bitcoinx.Node.Init.Again.{IsConfigured, Restarts, once, again, elsewhere, Restarts-IsConfigured}

abbrev host_file : Text
host_file = lit "/etc/hostname"

abbrev name_in : Option Text → Text
name_in none = lit "a"
name_in (some d) = if eq_text d (lit "b") then lit "b" else lit "a"

abbrev host : Host Memory
host = record {
  files = memory;
  run = λ cmd args w. (ok tt, w);
  hostname = λ w. (ok (name_in (w host_file)), w);
  current_user = λ w. (ok (lit "1", lit "1"), w);
  editor = λ w. [];
  ask = λ w. (ok keep, w);
  print_tree = λ p ignore w. (ok tt, w);
  quote = λ s. s;
}

a-IsLine : IsLine (assignment (lit "moniker") (lit "a"))
unfolding assignment max_token drop_cr
a-IsLine = record { one_line = omega arith; no_cr = refl; short = omega arith }

b-IsLine : IsLine (assignment (lit "moniker") (lit "b"))
unfolding assignment max_token drop_cr
b-IsLine = record { one_line = omega arith; no_cr = refl; short = omega arith }

name_in-IsLine : (d : Option Text) → IsLine (assignment (lit "moniker") (name_in d))
name_in-IsLine none = a-IsLine
name_in-IsLine (some d) = elim (Bool-cases (eq_text d (lit "b"))) [
  | inl e ↦ rw e b-IsLine
  | inr e ↦ rw e a-IsLine
]

ok_inj : {x y : Text} → ok x ≡ ok y → x ≡ y
ok_inj e = cc

host-IsQuiet : IsQuiet host held
host-IsQuiet = record {
  hostname-content = λ q w. refl;
  stat-content = λ p q w. refl;
  stat-found = λ p d w h. rw h refl;
  name-IsLine = λ name w h.
      subst (λ (n : Text). IsLine (assignment (lit "moniker") n)) (ok_inj h)
        (name_in-IsLine (w host_file));
}

abbrev config : Config
config = record {
  root_dir = lit "/home";
  ports = ports_at 52000;
  chain_id = [];
  publish_network = true;
}

abbrev project : Project
project = record { name = lit "x"; image = lit "i"; binaries = none }

abbrev lines : List Text
lines = lit "moniker = \"u\"" ∷ lit "[p2p]" ∷ []

lines-IsLine : All IsLine lines
unfolding max_token drop_cr
lines-IsLine = (
  record { one_line = omega arith; no_cr = refl; short = omega arith },
  (record { one_line = omega arith; no_cr = refl; short = omega arith }, tt),
)

-- Every file holds these lines.
abbrev disk : Memory
disk path = some (print_lines lines)

abbrev first : Memory
first = (init host config project none false disk).1

-- The host is renamed, and the node joins a network.
abbrev renamed : Memory
renamed path = if eq_text path host_file then some (lit "b") else first path

abbrev second : Memory
second = (init host config project (some (lit "g")) false renamed).1

first_started : (init host config project none false disk).0 ≡ ok tt
unfolding init initialize initialize_on update_config rewrite write_genesis scan_lines print_lines
first_started = refl

second_started : (init host config project (some (lit "g")) false renamed).0 ≡ ok tt
unfolding init initialize initialize_on update_config rewrite write_genesis scan_lines print_lines
    config_path genesis_path config_dir state_dir path_join eq_text update_line node_vars matches
    assignment
second_started = refl

restarted : Restarts host held config project disk (lit "b") second
unfolding eq_text init initialize initialize_on update_config rewrite write_genesis scan_lines
    print_lines config_path genesis_path config_dir state_dir path_join update_line node_vars
    matches assignment
restarted =
    again (lit "b") (some (lit "g")) false
      (elsewhere renamed (print_lines lines) (once (lit "a") none false refl first_started) refl
        refl)
      refl second_started

home-IsName : IsName (lit "home")
unfolding eq_text
home-IsName = record { no_slash = omega arith; nonempty = refl; not_dot = refl; not_dot_dot = refl }

root : config.root_dir ≡ absolute (lit "home" ∷ [])
unfolding absolute
root = refl

Restarts-IsConfigured_example : IsConfigured host held config lines (lit "b") second
Restarts-IsConfigured_example =
    Restarts-IsConfigured host memory-IsLawful host-IsQuiet config project (lit "home" ∷ []) lines
      (print_lines lines) disk (home-IsName, tt) root lines-IsLine refl refl (lit "b") second
      restarted
