-- ===== src/Ports/Tests.antt =====
-- Runs of the port allocation on small networks, and the theorems at concrete inputs.
use bitcoinx.Base.{ℕ, ◌≡◌, refl, Bool, false, ◌&&◌, not, some}
use bitcoinx.Base.{ltb, ◌==◌}
use bitcoinx.Ports.{Net, allocated, unavailable}
use bitcoinx.Ports.{allocate_ports, port_available, port_range_available}

-- Port `busy` is taken by a process, and on `hidden` a container answers.
abbrev host : ℕ → ℕ → Net (Unit {0})
host busy hidden = record {
  listen = λ p w. (ltb p 65536 && not (p == busy), w);
  close_listener = λ p w. w;
  dial = λ p w. (p == hidden, w);
  close_connection = λ p w. w;
}

abbrev open_to : ℕ → ℕ → Bool
open_to busy p = ltb p 65536 && not (p == busy)

abbrev answering : ℕ → ℕ → Bool
answering hidden p = p == hidden

-- The first range has a busy port and the second one answers, so the third is taken.
second_try : (allocate_ports (host 52001 52012) tt).0 ≡ some (allocated 52022)
unfolding allocate_ports port_range_available port_available
second_try = refl

-- A host on which nothing can be listened to.
abbrev closed : Net (Unit {0})
closed = record {
  listen = λ p w. (false, w);
  close_listener = λ p w. w;
  dial = λ p w. (false, w);
  close_connection = λ p w. w;
}

closed_run : (allocate_ports closed tt).0 ≡ some unavailable
unfolding allocate_ports port_range_available port_available
closed_run = refl
