-- ===== src/Files/Memory.antt =====
-- Files in memory, for runs of the operations that read and change files.
use bitcoinx.Base.{
  false, ◌≡◌, Text, Option, none, some, Result, ok, err, ◌++◌, [], eq_text, not_exist,
  if◌then◌else◌, refl,
}
use bitcoinx.Files.{Files, IsLawful, IsFramed}

-- Each path with what the file holds.
abbrev pub Memory : Type 0
Memory = Text → Option Text

abbrev found : Option Text → Result Text
found none = err not_exist
found (some d) = ok d

abbrev checked : Option Text → Result (Unit {0})
checked none = err not_exist
checked (some d) = ok tt

abbrev append : Text → Option Text → Option Text
append d none = none
append d (some old) = some (old ++ d)

abbrev pub memory : Files Memory
memory = record {
  read = λ p w. (found (w p), w);
  create = λ p w. (ok tt, λ q. if eq_text p q then some [] else w q);
  put = λ p d w. (ok tt, λ q. if eq_text p q then append d (w p) else w q);
  stat = λ p w. (checked (w p), w);
  mkdir_all = λ p w. (ok tt, w);
  link = λ p p' w. (ok tt, λ q. if eq_text p' q then w p else w q);
  rename = λ p p' w. (ok tt, λ q. if eq_text p' q then w p else if eq_text p q then none else w q);
}

abbrev pub held : Memory → Text → Option Text
held w p = w p

pub memory-IsLawful : IsLawful memory held
memory-IsLawful = record {
  read-some = λ p d w h. rw h refl;
  read-none = λ p w h. rw h refl;
  content-create = λ p q w h. refl;
  content-put = λ p d q w {old} h e. rw e refl;
  content-rename = λ p p' q w {d} h e. rw e refl;
}

create_other :
    (p q : Text) (w : Memory) → eq_text p q ≡ false → held (memory.create p w).1 q ≡ held w q
create_other p q w ne = rw ne refl

put_other :
    (p d q : Text) (w : Memory) → eq_text p q ≡ false → held (memory.put p d w).1 q ≡ held w q
put_other p d q w ne = rw ne refl

pub memory-IsFramed : IsFramed memory held
memory-IsFramed = record {
  stat-content = λ p q w. refl;
  mkdir_all-content = λ p q w. refl;
  create-other = create_other;
  put-other = put_other;
}
