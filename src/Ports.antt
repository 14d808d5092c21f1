-- ===== src/Ports.antt =====
-- config/portmapper.go: the allocation of a node's ports. The network (`net.Listen`, `net.Dial`
-- and the closing of what they return) is a parameter over an unknown state.
pub mod Search
pub mod Total
pub mod Laws
mod Tests
use bitcoinx.Base.{ℕ, zero, suc, ◌+◌, Bool, true, false, Option, none, some, lit, Error, message}
use bitcoinx.Base.{Result, ok, err, ltb, ◌==◌, not, if◌then◌else◌}

abbrev pub min_port : ℕ
min_port = 52000

abbrev pub max_port : ℕ
max_port = 70000

abbrev pub num_ports : ℕ
num_ports = 5

abbrev pub port_step : ℕ
port_step = 11

-- `ErrPortsUnavailable`
abbrev pub ports_unavailable : Error
ports_unavailable = message (lit "unable to allocate ports")

pub record PortMapper : Type 0 where
  pub explorer : ℕ
  pub tendermint_rpc : ℕ
  pub tendermint_p2p : ℕ
  pub ipfs : ℕ

-- TCP on this host, by port. A test is true if the call succeeds.
pub record Net (W : Type 0) : Type 0 where
  pub listen : ℕ → W → Bool × W
  pub close_listener : ℕ → W → W
  pub dial : ℕ → W → Bool × W
  pub close_connection : ℕ → W → W

-- The notice that another range is used: the range wanted, and the one taken.
pub record Notice : Type 0 where
  pub wanted_first : ℕ
  pub wanted_last : ℕ
  pub used_first : ℕ
  pub used_last : ℕ

pub record Allocation : Type 0 where
  pub ports : Result PortMapper
  pub notice : Option Notice

abbrev pub ports_at : ℕ → PortMapper
ports_at port = record {
  explorer = port + 0;
  tendermint_rpc = port + 1;
  tendermint_p2p = port + 2;
  ipfs = port + 3;
}

abbrev notice_at : ℕ → Option Notice
notice_at port =
    if port == min_port
    then none
    else some (record {
      wanted_first = min_port;
      wanted_last = min_port + num_ports;
      used_first = port;
      used_last = port + num_ports;
    })

abbrev pub allocated : ℕ → Allocation
allocated port = record { ports = ok (ports_at port); notice = notice_at port }

abbrev pub unavailable : Allocation
unavailable = record { ports = err ports_unavailable; notice = none }

module _ {W : Type 0} (net : Net W) where
  -- The body of the loop: listen, close, and dial in addition.
  unfoldable pub port_available : ℕ → W → Bool × W
  port_available port w =
      let (listening, w1) = net.listen port w in
      if not listening
      then (false, w1)
      else let (answered, w2) = net.dial port (net.close_listener port w1) in
        if answered then (false, net.close_connection port w2) else (true, w2)

  -- The loop over `base + i`, `n` ports from `port` on.
  unfoldable pub port_range_available : ℕ → ℕ → W → Bool × W
  port_range_available port zero w = (true, w)
  port_range_available port (suc n) w =
      let (free, w1) = port_available port w in
      let rest = port_range_available (port + 1) n w1 in if free then rest else (false, w1)

  -- The loop of `AllocatePorts` from `port` on. `none` means that the fuel ran out.
  unfoldable pub allocate_from : ℕ → ℕ → W → Option Allocation × W
  allocate_from zero port w = (none, w)
  allocate_from (suc fuel) port w =
      let (free, w1) = port_range_available port num_ports w in
      let next = allocate_from fuel (port + port_step) w1 in
      if ltb port max_port
      then (if free then (some (allocated port), w1) else next)
      else (some unavailable, w)

  unfoldable pub allocate_ports : W → Option Allocation × W
  unfolding allocate_from
  allocate_ports w = allocate_from 1638 min_port w
