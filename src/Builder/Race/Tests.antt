-- ===== src/Builder/Race/Tests.antt =====
-- A build whose last words are lost.
use bitcoinx.Base.{lit, [], ◌++◌, true, false, none, some, err, external, ◌≡◌, refl}
use bitcoinx.Builder.Race.{
  State, started, wrote, took, reading, waiting, returned, Reach, here, next,
}
use bitcoinx.Builder.Race.{writes_out, writes_errors, exits, reads_out}
use bitcoinx.Builder.Race.Laws.{Reach-loses}

-- The process has written two lines, of which one was read, and an error, and has failed.
abbrev dying : State
dying = record {
  out = record { written = lit "Step 1\nStep 2\n"; unread = lit "Step 2\n"; read = lit "Step 1\n" };
  errors = record { written = lit "failed\n"; unread = lit "failed\n"; read = [] };
  exit = some (err (external 1));
  closed = false;
  parsing = reading;
  main = waiting;
  log = none;
  log_error = none;
}

dying_reached : Reach started dying
unfolding started wrote took
dying_reached =
    next
      (next
        (next
          (next (next here (writes_out (lit "Step 1\n") refl refl))
            (reads_out (lit "Step 1\n") [] refl refl refl refl))
          (writes_out (lit "Step 2\n") refl refl))
        (writes_errors (lit "failed\n") refl refl))
      (exits (err (external 1)) refl refl)

Reach-loses_example :
    (t : State) × Reach dying t
    × (t.main ≡ returned (err (external 1)))
    × (t.log ≡ some (lit "Step 1\n" ++ []))
    × (t.out.written ≡ lit "Step 1\n" ++ lit "Step 2\n")
    × (t.errors.written ≡ [] ++ lit "failed\n")
Reach-loses_example = Reach-loses dying (external 1) dying_reached refl refl

abbrev dead : State
dead = record dying {
  closed = true;
  main = returned (err (external 1));
  log = some (lit "Step 1\n");
}
