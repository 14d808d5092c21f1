-- ===== src/Node/Tests.antt =====
-- Runs of the loops beside the node, of the update of its configuration and of its start.
use bitcoinx.Base.{
  ℕ, zero, suc, Text, lit, List, [], ◌∷◌, true, false, some, Result, ok, err, external, cancelled,
  All, ◌≡◌, refl, arith, eq_text, inl, inr, has_prefix,
}
use bitcoinx.Base.Int.{pos}
use bitcoinx.Base.Lines.{scan_lines, print_lines, IsLine, max_token, drop_cr}
use bitcoinx.Config.{Config}
use bitcoinx.Ports.{ports_at}
use bitcoinx.Project.{Project}
use bitcoinx.Files.Memory.{Memory, memory, held, memory-IsLawful}
use bitcoinx.Discovery.{PeerInfo}
use bitcoinx.Node.Update.{Vars, matches, update_config, update_config_in, rewrite}
use bitcoinx.Node.Update.Sets.{AllBecome, update_config-AllBecome}
use bitcoinx.Node.Update.Order.{update_config-order}
use bitcoinx.Node.Update.Laws.{PrefixFree, Listed}
use bitcoinx.Base.{join_with, ◌<◌}
use bitcoinx.Base.Decimal.{decimal, decimal_ℤ}
use bitcoinx.Node.Dial.{seed, seed_string}
use bitcoinx.Node.Discover.{Found, Round, is_seen, Try, visit_peers, discover_peers, announce}
use bitcoinx.Node.Discover.Laws.{NoRepeat, IsRetry, discover_peers-NoRepeat}
use bitcoinx.Node.Init.{
  Host, keep, docker_run, init_with_moniker, initialize, init, with_binaries, initialize_on,
  write_genesis,
}

abbrev peer : Text → PeerInfo
peer id = record { node_id = id; ip = some (lit "1.2.3.4" ∷ []); tendermint_p2p_port = pos 42000 }

-- The first dial fails, the second one is a success, and the third round has the node again.
abbrev rounds : List Round
rounds =
    record {
      cancelled_before = false;
      found = ok (record { peer = peer (lit "n"); dialled = err (external 1) } ∷ []);
      cancelled_waiting = false;
    }
    ∷ record {
      cancelled_before = false;
      found = ok (record { peer = peer (lit "n"); dialled = ok tt } ∷ []);
      cancelled_waiting = false;
    }
    ∷ record {
      cancelled_before = false;
      found = ok (record { peer = peer (lit "n"); dialled = ok tt } ∷ []);
      cancelled_waiting = true;
    }
    ∷ []

two_attempts : discover_peers [] rounds ≡ (some cancelled, (lit "n", false) ∷ (lit "n", true) ∷ [])
unfolding discover_peers visit_peers is_seen eq_text
two_attempts = refl

discover_peers-NoRepeat_example : NoRepeat [] (discover_peers [] rounds).1
discover_peers-NoRepeat_example = discover_peers-NoRepeat rounds

abbrev reachable : Text → Found
reachable id = record { peer = peer id; dialled = ok tt }

abbrev failing : Try
failing = record {
  cancelled_before = false;
  announced = err (external 1);
  cancelled_waiting = false;
}

failing-IsRetry : IsRetry failing
failing-IsRetry = record { live = refl; failed = refl; waited = refl }

abbrev stopped : Try
stopped = record failing { cancelled_waiting = true }

stopped_run : announce (stopped ∷ []) ≡ some (err cancelled)
unfolding announce
stopped_run = refl

peer_bytes : All (λ c. c < 256) (seed_string (peer (lit "n")))
unfolding seed_string seed join_with decimal decimal_ℤ
peer_bytes = omega arith

-- The configuration.
abbrev vars : Vars
vars = (lit "moniker", lit "\"m\"") ∷ (lit "addr", lit "\"t\"") ∷ []

abbrev sorted : Vars
sorted = (lit "addr", lit "\"t\"") ∷ (lit "moniker", lit "\"m\"") ∷ []

vars_free : PrefixFree vars
unfolding has_prefix
vars_free = (((refl, refl), tt), (tt, tt))

sorted_free : PrefixFree sorted
unfolding has_prefix
sorted_free = (((refl, refl), tt), (tt, tt))

addr_line : matches (lit "addr = \"u\"") (lit "addr") ≡ true
unfolding matches has_prefix
addr_line = refl

into_sorted : (k v : Text) → Listed k v vars → Listed k v sorted
into_sorted k v (inl m) = inr (inl m)
into_sorted k v (inr (inl m)) = inl m
into_sorted k v (inr (inr m)) = absurd m

from_sorted : (k v : Text) → Listed k v sorted → Listed k v vars
from_sorted k v (inl m) = inr (inl m)
from_sorted k v (inr (inl m)) = inl m
from_sorted k v (inr (inr m)) = absurd m

-- The first line meets the variables in the other order.
abbrev mixed : ℕ → Vars
mixed zero = sorted
mixed (suc i) = vars

mixed_free : (i : ℕ) → PrefixFree (mixed i)
mixed_free zero = sorted_free
mixed_free (suc i) = vars_free

from_mixed : (i : ℕ) (k v : Text) → Listed k v (mixed i) → Listed k v vars
from_mixed zero k v m = from_sorted k v m
from_mixed (suc i) k v m = m

into_mixed : (i : ℕ) (k v : Text) → Listed k v vars → Listed k v (mixed i)
into_mixed zero k v m = into_sorted k v m
into_mixed (suc i) k v m = m

update_config-order_example :
    update_config_in memory (lit "f") mixed ≡ update_config memory (lit "f") vars
update_config-order_example =
    update_config-order memory (lit "f") mixed vars mixed_free vars_free from_mixed into_mixed

abbrev lines : List Text
lines = lit "addr = \"u\"" ∷ lit "moniker = \"u\"" ∷ lit "[p2p]" ∷ []

lines-IsLine : All IsLine lines
unfolding max_token drop_cr
lines-IsLine = (
  record { one_line = omega arith; no_cr = refl; short = omega arith },
  (
    record { one_line = omega arith; no_cr = refl; short = omega arith },
    (record { one_line = omega arith; no_cr = refl; short = omega arith }, tt),
  ),
)

-- Every file holds these lines.
abbrev disk : Memory
disk path = some (print_lines lines)

disk_updated : (update_config memory (lit "f") vars disk).0 ≡ ok tt
unfolding update_config rewrite scan_lines print_lines
disk_updated = refl

update_config-AllBecome_example :
    (ls' : List Text) × AllBecome vars lines ls'
    × (held (update_config memory (lit "f") vars disk).1 (lit "f") ≡ some (print_lines ls'))
unfolding eq_text
update_config-AllBecome_example =
    update_config-AllBecome memory memory-IsLawful (lit "f") (lit "f") vars lines disk vars_free
      lines-IsLine refl disk_updated

-- The start of a node.
abbrev config : Config
config = record {
  root_dir = lit "/home";
  ports = ports_at 52000;
  chain_id = [];
  publish_network = true;
}

abbrev project : Project
project = record {
  name = lit "x";
  image = lit "i";
  binaries = some (record { cli = lit "cli"; daemon = lit "d" });
}

-- Commands have the given result.
abbrev host : Result (Unit {0}) → Host Memory
host ran = record {
  files = memory;
  run = λ cmd args w. (ran, w);
  hostname = λ w. (ok (lit "h"), w);
  current_user = λ w. (ok (lit "1", lit "1"), w);
  editor = λ w. [];
  ask = λ w. (ok keep, w);
  print_tree = λ p ignore w. (ok tt, w);
  quote = λ s. s;
}

not_run :
    docker_run (host (err (external 1))) config project (lit "init" ∷ []) disk
    ≡ (err (external 1), disk)
unfolding docker_run with_binaries
not_run = refl

not_retried :
    init_with_moniker (host (err (external 1))) config project disk ≡ (err (external 1), disk)
unfolding init_with_moniker docker_run with_binaries
not_retried = refl

joined : (init (host (ok tt)) config project (some (lit "genesis")) false disk).0 ≡ ok tt
unfolding init initialize initialize_on update_config rewrite write_genesis scan_lines print_lines
joined = refl
