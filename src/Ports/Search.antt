-- ===== src/Ports/Search.antt =====
-- The search of `AllocatePorts` on a network whose answers do not change meanwhile: it is a search
-- of the list of candidate ranges.
use bitcoinx.Base.{ℕ, zero, suc, ◌+◌, ◌*◌, ◌≤◌, ◌<◌, ◌≡◌, refl, Bool, true, ◌&&◌, not, arith}
use bitcoinx.Base.{Option, none, some, List, [], ◌∷◌, if◌then◌else◌, lt→ltb, le→ltb}
use bitcoinx.Ports.{Net, Allocation, allocated, unavailable, num_ports, min_port}
use bitcoinx.Ports.{max_port, port_available, port_range_available, allocate_from, allocate_ports}

-- Whether a port can be listened to, and whether someone answers on it, at any time.
pub record IsSteady {W : Type 0} (net : Net W) (can_listen answers : ℕ → Bool) : Type 0 where
  pub listen_lem : (p : ℕ) (w : W) → (net.listen p w).0 ≡ can_listen p
  pub dial_lem : (p : ℕ) (w : W) → (net.dial p w).0 ≡ answers p

module _ (can_listen answers : ℕ → Bool) where
  unfoldable pub is_free : ℕ → Bool
  is_free p = can_listen p && not (answers p)

  -- `n` ports from `p` on.
  unfoldable pub is_free_range : ℕ → ℕ → Bool
  unfolding is_free
  is_free_range p zero = true
  is_free_range p (suc n) = is_free p && is_free_range (p + 1) n

  unfoldable pub first_free : List ℕ → Option ℕ
  unfolding is_free_range
  first_free [] = none
  first_free (p ∷ ps) =
      let rest = first_free ps in if is_free_range p num_ports then some p else rest

-- `n` numbers from `p` on, eleven apart.
unfoldable pub progression : ℕ → ℕ → List ℕ
progression zero p = []
progression (suc n) p = p ∷ progression n (p + 11)

-- The first ports of all ranges below the maximum.
unfoldable pub candidates : List ℕ
unfolding progression
candidates = progression 1637 min_port

abbrev pub outcome : Option ℕ → Allocation
outcome none = unavailable
outcome (some p) = allocated p

module _ {W : Type 0} (net : Net W) {can_listen answers : ℕ → Bool}
    (steady : IsSteady net can_listen answers) where
  port_available-eq : (p : ℕ) (w : W) → (port_available net p w).0 ≡ is_free can_listen answers p
  unfolding port_available is_free
  port_available-eq p w =
      ground
        (arith, steady.listen_lem p w, steady.dial_lem p (net.close_listener p (net.listen p w).1))

  port_range_available-eq :
      (p n : ℕ) (w : W) → (port_range_available net p n w).0 ≡ is_free_range can_listen answers p n
  unfolding port_range_available is_free_range
  port_range_available-eq p zero w = refl
  port_range_available-eq p (suc n) w =
      ground
        (arith, port_available-eq p w, port_range_available-eq (p + 1) n (port_available net p w).1)

  allocate_from-eq :
      (n fuel p : ℕ) (w : W)
      → n < fuel
      → max_port ≤ p + 11 * n
      → p + 11 * n < max_port + 11
      → (allocate_from net fuel p w).0
        ≡ some (outcome (first_free can_listen answers (progression n p)))
  unfolding allocate_from first_free progression
  allocate_from-eq n zero p w h lo hi = absurd (omega arith)
  allocate_from-eq zero (suc fuel) p w h lo hi = rw (le→ltb p max_port (omega arith))
  allocate_from-eq (suc n) (suc fuel) p w h lo hi = rw (lt→ltb p max_port (omega arith)) (
      ground (
        arith,
        port_range_available-eq p num_ports w,
        allocate_from-eq n fuel (p + 11) (port_range_available net p num_ports w).1,
      ))

  pub allocate_ports-first_free :
      (w : W) → (allocate_ports net w).0 ≡ some (outcome (first_free can_listen answers candidates))
  unfolding allocate_ports candidates
  allocate_ports-first_free w =
      allocate_from-eq 1637 1638 min_port w (omega arith) (omega arith) (omega arith)
