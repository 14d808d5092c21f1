-- ===== src/Files.antt =====
-- The calls of Go's `os` and `io/ioutil` packages that read and change files. The file system is a
-- parameter: its operations over an unknown world, and what the program relies on.
pub mod Laws
pub mod Frame
pub mod Memory
use bitcoinx.Base.{
  Text, Option, none, some, Eff, Result, ok, err, ◌≡◌, ◌++◌, [], eq_text, false, ◌>>◌, Error,
  not_exist, if◌then◌else◌,
}

-- `create` is `os.Create`, which empties the file; `put` is `Write` on the file that was opened;
-- `stat` and the others are the functions of `os` so named.
pub record Files (W : Type 0) : Type 0 where
  pub read : Text → Eff W Text
  pub create : Text → Eff W (Unit {0})
  pub put : Text → Text → Eff W (Unit {0})
  pub stat : Text → Eff W (Unit {0})
  pub mkdir_all : Text → Eff W (Unit {0})
  pub link : Text → Text → Eff W (Unit {0})
  pub rename : Text → Text → Eff W (Unit {0})

-- `ioutil.WriteFile`
abbrev pub write_file : {W : Type 0} → Files W → Text → Text → Eff W (Unit {0})
write_file fs path bytes = fs.create path >> fs.put path bytes

-- A file system in which `content` tells what each file holds: reading gives it and changes nothing,
-- and a successful write changes the one file.
pub record IsLawful {W : Type 0} (fs : Files W) (content : W → Text → Option Text) : Type 0 where
  pub read-some : (p d : Text) (w : W) → content w p ≡ some d → fs.read p w ≡ (ok d, w)
  pub read-none : (p : Text) (w : W) → content w p ≡ none → fs.read p w ≡ (err not_exist, w)
  pub content-create :
      (p q : Text) (w : W)
      → (fs.create p w).0 ≡ ok tt
      → content (fs.create p w).1 q ≡ (if eq_text p q then some [] else content w q)
  pub content-put :
      (p d q : Text) (w : W) {old : Text}
      → (fs.put p d w).0 ≡ ok tt
      → content w p ≡ some old
      → content (fs.put p d w).1 q ≡ (if eq_text p q then some (old ++ d) else content w q)
  pub content-rename :
      (p p' q : Text) (w : W) {d : Text}
      → (fs.rename p p' w).0 ≡ ok tt
      → content w p ≡ some d
      → content (fs.rename p p' w).1 q
        ≡ (if eq_text p' q then some d else if eq_text p q then none else content w q)

-- A file system in which a call, whether or not it succeeds, leaves all files but its own alone.
pub record IsFramed {W : Type 0} (fs : Files W) (content : W → Text → Option Text) : Type 0 where
  pub stat-content : (p q : Text) (w : W) → content (fs.stat p w).1 q ≡ content w q
  pub mkdir_all-content : (p q : Text) (w : W) → content (fs.mkdir_all p w).1 q ≡ content w q
  pub create-other :
      (p q : Text) (w : W) → eq_text p q ≡ false → content (fs.create p w).1 q ≡ content w q
  pub put-other :
      (p d q : Text) (w : W) → eq_text p q ≡ false → content (fs.put p d w).1 q ≡ content w q
