-- ===== src/Project/Tests.antt =====
-- Projects that are saved and loaded in memory.
use bitcoinx.Base.{Text, lit, List, [], ◌∷◌, none, some, ok, All, ◌≡◌, refl, arith, eq_text}
use bitcoinx.Files.Memory.{Memory, memory, memory-IsLawful}
use bitcoinx.GoPath.{path_join}
use bitcoinx.GoPath.Laws.{IsName}
use bitcoinx.Project.{Project, Yaml, manifest_file, new, validate, save, load}
use bitcoinx.Project.Laws.{IsComplete, validate_iff, load-save}

abbrev sample : Project
sample = record {
  name = lit "chain";
  image = lit "image";
  binaries = some (record { cli = lit "cli"; daemon = lit "d" });
}

-- A library that marshals every project to the same bytes and decodes them to the sample.
abbrev yaml : Yaml
yaml = record { marshal = λ p. ok (lit "m"); decode = λ m. ok sample }

sample_valid : validate sample ≡ ok tt
unfolding validate
sample_valid = refl

sample-IsComplete : IsComplete sample
sample-IsComplete = (validate_iff sample).0 sample_valid

abbrev empty : Memory
empty _ = none

abbrev root : List Text
root = lit "home" ∷ []

root_names : All IsName root
unfolding eq_text
root_names =
    (record { no_slash = omega arith; nonempty = refl; not_dot = refl; not_dot_dot = refl }, tt)

new_valid : validate (new (lit "x")) ≡ ok tt
unfolding validate new
new_valid = refl

saved_at : (path : Text) → (save yaml memory sample path empty).0 ≡ ok tt
unfolding save
saved_at path = refl

load-save_example :
    (load yaml memory
      (lit "/home")
      (save yaml memory sample (path_join (lit "/home" ∷ manifest_file ∷ [])) empty).1).0
    ≡ ok sample
load-save_example =
    load-save yaml memory memory-IsLawful sample (lit "m") (lit "/home") empty refl refl
      sample-IsComplete (saved_at (path_join (lit "/home" ∷ manifest_file ∷ [])))
