-- ===== src/Assets/Stream/All.antt =====
-- What `ioutil.ReadAll`, as `ReadFile` of httpfs/utils.go calls it, gives of an opened compressed
-- file of templates/assets_vfsdata.go.
use bitcoinx.Base.{
  ℕ, zero, suc, ◌+◌, ◌<◌, ◌≤◌, ◌++◌, Option, none, some, Result, ok, err, Error, eof, length, drop,
  drop-end, drop-append, length-append, ◌≡◌, ◌≢◌, arith, ap, sym, subst, ◌∙◌, Text, ◌⊎◌, inl, inr,
}
use mathlib.Core.List.{append_assoc, append-nil}
use bitcoinx.Assets.{Readers, CompressedFile, compressed_file, compressed_file_info, open_asset}
use bitcoinx.Assets.Stream.{or_return, rewind, fast_forward, read_here, read}
use bitcoinx.Assets.Stream.Moves.{IsReader, place, StandsAt, InPlace}
use bitcoinx.Assets.Stream.Laws.{read-Reads, open_asset-InPlace}

-- What stands at a place, and what follows it, is what the text has from that place on.
pub drop-StandsAt :
    (text bytes : Text) (at : ℕ)
    → StandsAt text at bytes
    → drop at text ≡ bytes ++ drop (at + length bytes) text
drop-StandsAt text bytes at (pre, post, e, k) =
    ap (drop at) e
    ∙ drop-append at pre (bytes ++ post) k
    ∙ ap (λ (t : Text). bytes ++ t)
        (sym (
          ap (drop (at + length bytes)) (e ∙ sym (append_assoc pre bytes post))
          ∙ drop-append (at + length bytes) (pre ++ bytes) post
              (length-append pre bytes ∙ omega (arith, k))))

module _ {G B : Type 0} (readers : Readers G B) where
  -- The bytes, put before those of the rest.
  abbrev pub before : Text → Result Text → Result Text
  before bytes (ok rest) = ok (bytes ++ rest)
  before bytes (err e) = err e

  -- `ioutil.ReadAll` as documented: it reads until there is an error, of which `io.EOF` is the end of
  -- the file. The size of the slice of each read is not said.
  pub data ReadsAll : CompressedFile G → Result Text → Type 0 where
    last :
        (f : CompressedFile G) (n : ℕ) (bytes : Text)
        → (read readers f n).0 ≡ (bytes, some eof)
        → ReadsAll f (ok bytes)
    failed :
        (f : CompressedFile G) (n : ℕ) (bytes : Text) (e : Error)
        → e ≢ eof
        → (read readers f n).0 ≡ (bytes, some e)
        → ReadsAll f (err e)
    more :
        (f : CompressedFile G) (n : ℕ) (bytes : Text) (r : Result Text)
        → (read readers f n).0 ≡ (bytes, none)
        → ReadsAll (read readers f n).1 r
        → ReadsAll f (before bytes r)

  module _ {content text : Text} {left : G → Text}
      (reader : IsReader readers content text left) where
    -- The place behind what was read is in the text.
    pub within_text :
        (at : ℕ) (bytes : Text) → StandsAt text at bytes → at + length bytes ≤ length text
    within_text at bytes (pre, post, e, k) = omega (
      arith,
      ap (λ (t : Text). length t) e,
      length-append pre (bytes ++ post),
      length-append bytes post,
      k,
    )

    -- The end that a read reports.
    abbrev pub Ends : ℕ → Text × Option Error → Type 0
    Ends at (bytes, e) = (e ≡ none) ⊎ ((e ≡ some eof) × (at + length bytes ≡ length text))

    pub at_eof :
        (at : ℕ) (bytes : Text) (e : Option Error)
        → StandsAt text at bytes
        → Ends at (bytes, e)
        → e ≡ some eof
        → drop at text ≡ bytes
    at_eof at bytes e stands (inl goes_on) h = cc
    at_eof at bytes e stands (inr (_, done)) h =
        drop-StandsAt text bytes at stands
        ∙ ap (λ (t : Text). bytes ++ t) (drop-end (at + length bytes) text (omega (arith, done)))
        ∙ append-nil bytes

    only_eof :
        (at : ℕ) (bytes : Text) (e : Option Error) (x : Error)
        → Ends at (bytes, e)
        → e ≡ some x
        → x ≢ eof
        → ⊥
    only_eof at bytes e x (inl goes_on) h ne = cc
    only_eof at bytes e x (inr (eq, _)) h ne = ne (inj (sym h ∙ eq))
      where
        inj : {y z : Error} → some y ≡ some z → y ≡ z
        inj q = cc

    -- A run that ends gives all bytes from the place on, and no error.
    pub ReadsAll-drop :
        (f : CompressedFile G) (r : Result Text)
        → InPlace readers reader f
        → place f.seek_pos ≤ length text
        → ReadsAll f r
        → r ≡ ok (drop (place f.seek_pos) text)
    ReadsAll-drop f r i within (last g n bytes e) =
        let (stands, _, ends, _, _) = read-Reads readers reader f n i within in
        ap (λ (t : Text). ok t)
          (sym (ap (λ (p : Text × Option Error). p.0) e)
            ∙ sym (
                at_eof (place f.seek_pos) (read readers f n).0.0 (read readers f n).0.1 stands ends
                  (ap (λ (p : Text × Option Error). p.1) e)))
    ReadsAll-drop f r i within (failed g n bytes x ne e) =
        let (stands, _, ends, _, _) = read-Reads readers reader f n i within in
        absurd (
          only_eof (place f.seek_pos) (read readers f n).0.0 (read readers f n).0.1 x ends
            (ap (λ (p : Text × Option Error). p.1) e) ne)
    ReadsAll-drop f r i within (more g n bytes rest e all) =
        let (stands, _, ends, next, at) = read-Reads readers reader f n i within in
        let got : (read readers f n).0.0 ≡ bytes = ap (λ (p : Text × Option Error). p.0) e in
        let there : place (read readers f n).1.seek_pos
            ≡ place f.seek_pos + length (read readers f n).0.0 =
          ap place at in
        let inside = within_text (place f.seek_pos) (read readers f n).0.0 stands in
        ap (before bytes)
          (ReadsAll-drop (read readers f n).1 rest next (omega (arith, there, inside)) all)
        ∙ ap (λ (t : Text). ok t)
            (ap (λ (t : Text). t ++ drop (place (read readers f n).1.seek_pos) text) (sym got)
              ∙ ap (λ (k : ℕ). (read readers f n).0.0 ++ drop k text) there
              ∙ sym (drop-StandsAt text (read readers f n).0.0 (place f.seek_pos) stands))

    -- A reader that never returns nothing without saying that it is at the end.
    pub record IsLively : Type 0 where
      pub read-some :
          (g : G) (n : ℕ)
          → 0 < n
          → (readers.read g n).0.1 ≡ none
          → 0 < length (readers.read g n).0.0

    module _ (lively : IsLively) where
      pub read-lively :
          (f : CompressedFile G) (n : ℕ)
          → 0 < n
          → (read readers f n).0.1 ≡ none
          → 0 < length (read readers f n).0.0
      unfolding read
      read-lively f n some_asked h = go (rewind readers f) h
        where
          last :
              (y : Option Error × CompressedFile G)
              → (or_return y (read_here readers n)).0.1 ≡ none
              → 0 < length (or_return y (read_here readers n)).0.0
          last (none, g) e = unfold read_here in lively.read-some g.gr n some_asked e
          last (some x, g) e = cc

          go :
              (x : Option Error × CompressedFile G)
              → (or_return x (λ f1. or_return (fast_forward readers f1) (read_here readers n))).0.1
                ≡ none
              → 0
                < length
                    (or_return x
                      (λ f1. or_return (fast_forward readers f1) (read_here readers n))).0.0
          go (none, f1) e = last (fast_forward readers f1) e
          go (some y, f1) e = cc

      -- A read comes to the end, or further in the text.
      abbrev Advances : CompressedFile G → CompressedFile G → Type 0
      Advances f f' =
          InPlace readers reader f'
          × (place f'.seek_pos ≤ length text)
          × (place f.seek_pos < place f'.seek_pos)
          × ((r : Result Text) → ReadsAll f' r → (r' : Result Text) × ReadsAll f r')

      advances :
          (f : CompressedFile G)
          → InPlace readers reader f
          → place f.seek_pos ≤ length text
          → ((r : Result Text) × ReadsAll f r) ⊎ Advances f (read readers f 512).1
      advances f i within =
          let bytes = (read readers f 512).0.0 in
          let (stands, _, ends, next, at) = read-Reads readers reader f 512 i within in
          let there : place (read readers f 512).1.seek_pos ≡ place f.seek_pos + length bytes =
            ap place at in
          let inside = within_text (place f.seek_pos) bytes stands in
          elim ends [
            | inr (e, _) ↦
                inl (ok bytes, last f 512 bytes (ap (λ (o : Option Error). (bytes, o)) e))
            | inl e ↦ inr (
              next,
              omega (arith, there, inside),
              omega (arith, there, read-lively f 512 (omega arith) e),
              λ r all. (
                before bytes r,
                more f 512 bytes r (ap (λ (o : Option Error). (bytes, o)) e) all,
              ),
            )
          ]

      runs :
          (m : ℕ) (f : CompressedFile G)
          → InPlace readers reader f
          → place f.seek_pos ≤ length text
          → length text ≤ place f.seek_pos + m
          → (r : Result Text) × ReadsAll f r
      runs zero f i within bound = elim (advances f i within) [
        | inl done ↦ done
        | inr (next, inside, further, _) ↦ absurd (omega (arith, bound, inside, further))
      ]
      runs (suc m) f i within bound = elim (advances f i within) [
        | inl done ↦ done
        | inr (next, inside, further, after) ↦
            let (r, all) = runs m _ next inside (omega (arith, bound, further)) in after r all
      ]

      -- On a reader as its package documents it, which never returns nothing without saying that it
      -- is at the end, reading all of a compressed file that was just opened ends and gives its text,
      -- whatever the sizes of the single reads are; it gives nothing else and no error.
      pub open_asset-ReadsAll :
          (name : Text) (size : ℕ) (f : CompressedFile G)
          → open_asset readers (compressed_file_info name content size) ≡ ok (compressed_file f)
          → ReadsAll f (ok text) × ((r : Result Text) → ReadsAll f r → r ≡ ok text)
      open_asset-ReadsAll name size f opened =
          let (i, e) = open_asset-InPlace readers reader name size f opened in
          let start : place f.seek_pos ≡ 0 = ap place e in
          let within : place f.seek_pos ≤ length text = omega (arith, start) in
          let (r, all) = runs (length text) f i within (omega arith) in
          let gives : (x : Result Text) → ReadsAll f x → x ≡ ok text =
            λ x run. ReadsAll-drop f x i within run ∙ ap (λ (k : ℕ). ok (drop k text)) start in
          (subst (ReadsAll f) (gives r all) all, gives)
