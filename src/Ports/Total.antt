-- ===== src/Ports/Total.antt =====
-- The search for ports ends on every network, whatever its calls return.
use bitcoinx.Base.{ℕ, zero, suc, ◌+◌, ◌*◌, ◌≤◌, ◌≡◌, refl, some, arith, ltb, Bool-cases, inl, inr}
use bitcoinx.Ports.{
  Net, Allocation, allocated, unavailable, allocate_from, allocate_ports, port_range_available,
  max_port, min_port, num_ports,
}

allocate_from-total :
    {W : Type 0} (net : Net W) (fuel port : ℕ) (w : W)
    → max_port ≤ port + 11 * fuel
    → (a : Allocation) × ((allocate_from net (suc fuel) port w).0 ≡ some a)
unfolding allocate_from
allocate_from-total net zero port w h = (unavailable, ground arith)
allocate_from-total net (suc fuel) port w h = elim (Bool-cases (ltb port max_port)) [
  | inr past ↦ (unavailable, rw past refl)
  | inl more ↦ elim (Bool-cases (port_range_available net port num_ports w).0) [
    | inl free ↦ (allocated port, rw (more, free) refl)
    | inr taken ↦
        let (a, e) =
          allocate_from-total net fuel (port + 11) (port_range_available net port num_ports w).1
            (omega arith) in
        (a, rw (more, taken) e)
  ]
]

-- On every network, also one whose ports are taken and freed during the search, the search ends
-- with a range or with the error.
pub allocate_ports-total :
    {W : Type 0} (net : Net W) (w : W) → (a : Allocation) × ((allocate_ports net w).0 ≡ some a)
unfolding allocate_ports
allocate_ports-total net w = allocate_from-total net 1637 min_port w (omega arith)
