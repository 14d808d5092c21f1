-- ===== src/Ports/Laws.antt =====
-- What an allocation guarantees: free ports, the lowest free range, valid port numbers, and no
-- clash with the ports of another node.
use bitcoinx.Base.{
  ℕ, zero, suc, ◌+◌, ◌*◌, ◌≤◌, ◌<◌, ◌≡◌, refl, Bool, true, false, arith, ok, ◌∙◌, ap, sym,
}
use bitcoinx.Base.{Error, Option, none, some, inl, inr, Bool-cases, err}
use bitcoinx.Ports.{Net, PortMapper, Allocation, num_ports, min_port}
use bitcoinx.Ports.{allocate_ports, ports_at}
use bitcoinx.Ports.Search.{
  IsSteady, is_free, is_free_range, first_free, progression, candidates, outcome,
}
use bitcoinx.Ports.Search.{allocate_ports-first_free}

module _ (can_listen answers : ℕ → Bool) where
  -- The place of the range found, and that it is free.
  first_free-place :
      (n p : ℕ) {q : ℕ}
      → first_free can_listen answers (progression n p) ≡ some q
      → (k : ℕ) × (k < n) × (q ≡ p + 11 * k) × (is_free_range can_listen answers q num_ports ≡ true)
  unfolding first_free progression
  first_free-place zero p h = cc
  first_free-place (suc n) p {q} h =
      elim (Bool-cases (is_free_range can_listen answers p num_ports)) [
        | inl free ↦ (0, omega arith, ground arith, ground arith)
        | inr busy ↦
            let (k, lt, e, free) = first_free-place n (p + 11) {q = q} (ground arith) in
            (suc k, omega arith, omega arith, free)
      ]

  shift : (p j : ℕ) → p + 11 * suc j ≡ p + 11 + 11 * j
  shift p j = omega arith

  -- No range before the one found is free.
  first_free-lowest :
      (n p j : ℕ) {q : ℕ}
      → first_free can_listen answers (progression n p) ≡ some q
      → p + 11 * j < q
      → is_free_range can_listen answers (p + 11 * j) num_ports ≡ false
  unfolding first_free progression
  first_free-lowest zero p j h lt = cc
  first_free-lowest (suc n) p zero {q} h lt =
      let e : p + 11 * 0 ≡ p = omega arith in rw e (ground arith)
  first_free-lowest (suc n) p (suc j) {q} h lt =
      elim (Bool-cases (is_free_range can_listen answers p num_ports)) [
        | inl free ↦ absurd (ground arith)
        | inr busy ↦
            rw (shift p j) (first_free-lowest n (p + 11) j {q = q} (ground arith) (omega arith))
      ]

  -- When nothing is found, no range of the progression is free.
  first_free-none :
      (n p j : ℕ)
      → first_free can_listen answers (progression n p) ≡ none
      → j < n
      → is_free_range can_listen answers (p + 11 * j) num_ports ≡ false
  unfolding first_free progression
  first_free-none zero p j h lt = elim lt [ ]
  first_free-none (suc n) p zero h lt = let e : p + 11 * 0 ≡ p = omega arith in rw e (ground arith)
  first_free-none (suc n) p (suc j) h lt =
      rw (shift p j) (first_free-none n (p + 11) j (ground arith) (omega arith))

  is_free_range-is_free :
      (q i n : ℕ)
      → is_free_range can_listen answers q n ≡ true
      → i < n
      → is_free can_listen answers (q + i) ≡ true
  unfolding is_free_range
  is_free_range-is_free q i zero h lt = elim lt [ ]
  is_free_range-is_free q zero (suc n) h lt = let e : q + 0 ≡ q = omega arith in rw e (ground arith)
  is_free_range-is_free q (suc i) (suc n) h lt =
      let e : q + suc i ≡ q + 1 + i = omega arith in
      rw e (is_free_range-is_free (q + 1) i n (ground arith) (omega arith))

-- The ports of an allocation that succeeded.
abbrev pub Allocates : {W : Type 0} → Net W → W → PortMapper → Type 0
Allocates net w pm = (a : Allocation) × ((allocate_ports net w).0 ≡ some a) × (a.ports ≡ ok pm)

outcome-ok :
    (o : Option ℕ) {pm : PortMapper}
    → (outcome o).ports ≡ ok pm
    → (q : ℕ) × (o ≡ some q) × (pm ≡ ports_at q)
outcome-ok none h = cc
outcome-ok (some q) h = (q, refl, ground arith)

nothing : (o : Option ℕ) {e : Error} → (outcome o).ports ≡ err e → o ≡ none
nothing none h = refl
nothing (some q) h = cc

some_inj {ℓ} : {A : Type ℓ} {a b : A} → some a ≡ some b → a ≡ b
some_inj h = cc

module _ {W : Type 0} (net : Net W) {can_listen answers : ℕ → Bool}
    (steady : IsSteady net can_listen answers) (w : W) where
  found :
      {pm : PortMapper}
      → Allocates net w pm
      → (q : ℕ) × (first_free can_listen answers candidates ≡ some q) × (pm ≡ ports_at q)
  found {pm} (a, run, good) = outcome-ok _ (
      ap (λ (x : Allocation). x.ports)
        (some_inj (sym (allocate_ports-first_free net steady w) ∙ run))
      ∙ good)

  -- On a steady network a port mapper is only returned for a range that starts at 52000 or a
  -- multiple of eleven above, below 70000; its four ports are the first of that range, in order,
  -- and each of them can be listened to and nobody answers on it.
  pub allocate_ports-is_free :
      {pm : PortMapper}
      → Allocates net w pm
      → (k : ℕ) × (pm ≡ ports_at (52000 + 11 * k))
        × (52000 + 11 * k < 70000)
        × (is_free can_listen answers pm.explorer ≡ true)
        × (is_free can_listen answers pm.tendermint_rpc ≡ true)
        × (is_free can_listen answers pm.tendermint_p2p ≡ true)
        × (is_free can_listen answers pm.ipfs ≡ true)
  unfolding candidates
  allocate_ports-is_free {pm} run =
      let (q, first, e) = found {pm = pm} run in
      let (k, lt, place, free) = first_free-place can_listen answers 1637 min_port {q = q} first in
      let at = is_free_range-is_free can_listen answers q in
      (
        k,
        e ∙ ap ports_at place,
        omega arith,
        rw e (at 0 5 free (omega arith)),
        rw e (at 1 5 free (omega arith)),
        rw e (at 2 5 free (omega arith)),
        rw e (at 3 5 free (omega arith)),
      )

  -- On a steady network no candidate range below the one that was allocated has all its five ports
  -- free.
  pub allocate_ports-lowest :
      (k : ℕ) {pm : PortMapper}
      → Allocates net w pm
      → 52000 + 11 * k < pm.explorer
      → is_free_range can_listen answers (52000 + 11 * k) num_ports ≡ false
  unfolding candidates
  allocate_ports-lowest k {pm} run below =
      let (q, first, e) = found {pm = pm} run in
      first_free-lowest can_listen answers 1637 min_port k {q = q} first (ground arith)

  -- When the allocation fails on a steady network, no candidate range has all its five ports free.
  pub allocate_ports-unavailable :
      (k : ℕ) {a : Allocation} {e : Error}
      → (allocate_ports net w).0 ≡ some a
      → a.ports ≡ err e
      → 52000 + 11 * k < 70000
      → is_free_range can_listen answers (52000 + 11 * k) num_ports ≡ false
  unfolding candidates
  allocate_ports-unavailable k {a} {e} run bad lt =
      first_free-none can_listen answers 1637 min_port k
        (nothing (first_free can_listen answers candidates) (
          ap (λ (x : Allocation). x.ports)
            (some_inj (sym (allocate_ports-first_free net steady w) ∙ run))
          ∙ bad))
        (omega arith)

  -- On a steady network, where the system refuses to listen on port numbers above 65535, all ports
  -- of an allocation lie between 52000 and 65535, although the search goes on up to 70000.
  pub allocate_ports-bounds :
      {pm : PortMapper}
      → ((p : ℕ) → 65535 < p → can_listen p ≡ false)
      → Allocates net w pm
      → (52000 ≤ pm.explorer)
        × (pm.explorer < pm.tendermint_rpc)
        × (pm.tendermint_rpc < pm.tendermint_p2p)
        × (pm.tendermint_p2p < pm.ipfs)
        × (pm.ipfs ≤ 65535)
  unfolding is_free
  allocate_ports-bounds {pm} refused run =
      let (k, e, lt, f0, f1, f2, f3) = allocate_ports-is_free {pm = pm} run in
      let top : pm.ipfs ≤ 65535 = ground (arith, refused pm.ipfs) in ground arith
