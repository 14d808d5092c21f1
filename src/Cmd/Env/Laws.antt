-- ===== src/Cmd/Env/Laws.antt =====
-- Calls whose errors end the program.
use bitcoinx.Base.{Result, ok, err, Eff, ◌≡◌, ◌∙◌, ap}
use bitcoinx.Cmd.Env.{or_fatal, fatally}

module _ {W A : Type 0} (m : Eff W A) (w w' : W) {a : A} where
  -- A call that succeeds is left as it is.
  pub or_fatal_ok : m w ≡ (ok a, w') → or_fatal m w ≡ (ok a, w')
  or_fatal_ok h = ap (λ (r : Result A × W). (fatally r.0, r.1)) h

  -- Where the program was not ended, the call has succeeded.
  pub or_fatal_inv : or_fatal m w ≡ (ok a, w') → m w ≡ (ok a, w')
  or_fatal_inv h =
      ap (λ (r : Result A). (r, (m w).1)) (go (m w).0 (ap (λ (x : Result A × W). x.0) h))
      ∙ ap (λ (v : W). (ok a, v)) (ap (λ (x : Result A × W). x.1) h)
    where
      go : (r : Result A) → fatally r ≡ ok a → r ≡ ok a
      go (ok b) e = e
      go (err e) k = cc
