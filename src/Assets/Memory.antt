-- ===== src/Assets/Memory.antt =====
-- Readers whose compressed bytes are the bytes themselves: what is assumed of the package can hold.
use bitcoinx.Base.{
  ℕ, ◌≤◌, ◌<◌, [], ◌∷◌, ◌++◌, if◌then◌else◌, leb, le→leb, is_empty, none, some, ok, err, panic, eof,
  Text, length, take, drop, ◌≡◌, refl, arith, ap, sym, ◌∙◌, take-drop, drop-append, drop-end, ◌⊎◌,
  inl, inr, length-append,
}
use bitcoinx.Assets.{Readers}
use bitcoinx.Assets.File.{BytesReader}
use bitcoinx.Assets.Stream.Moves.{IsReader}
use bitcoinx.Assets.Stream.All.{IsLively}

unfoldable pub readers : Readers Text Text
readers = record {
  new_gzip = λ content. ok content;
  reset = λ g content. (none, content);
  read = λ g n. ((take n g, if is_empty g then some eof else none), drop n g);
  skip = λ g n. if leb n (length g) then (none, drop n g) else (some eof, []);
  new_bytes = λ content. content;
}

-- The same for the package bytes, without places to seek.
abbrev pub bytes : BytesReader Text
bytes = record {
  read_bytes = λ b n. ((take n b, if is_empty b then some eof else none), drop n b);
  seek_bytes = λ b offset whence. (err panic, b);
}

length-take : (n : ℕ) (xs : Text) → length (take n xs) ≤ n
length-take ℕ.zero xs = omega arith
length-take (ℕ.suc n) [] = omega arith
length-take (ℕ.suc n) (x ∷ xs) = omega (arith, length-take n xs)

ok_inj : {x y : Text} → ok x ≡ ok y → x ≡ y
ok_inj e = cc

drop_nil : (n : ℕ) → drop {A = ℕ} n [] ≡ []
drop_nil n = drop-end n [] (omega arith)

read-error :
    (g : Text) (n : ℕ)
    → ((readers.read g n).0.1 ≡ none)
      ⊎ (((readers.read g n).0.1 ≡ some eof) × ((readers.read g n).1 ≡ []))
unfolding readers
read-error [] n = inr (refl, drop_nil n)
read-error (c ∷ g) n = inl refl

skip-left :
    (g : Text) (n : ℕ) (pre post : Text)
    → g ≡ pre ++ post
    → length pre ≡ n
    → (readers.skip g n).1 ≡ post
unfolding readers
skip-left g n pre post e k =
    rw
      (le→leb n (length g)
        (omega (arith, ap (λ (xs : Text). length xs) e, length-append pre post, k)))
      (ap (drop n) e ∙ drop-append n pre post k)

skip-short :
    (g : Text) (n : ℕ)
    → length g < n
    → ((readers.skip g n).0 ≡ some eof) × ((readers.skip g n).1 ≡ [])
unfolding readers
skip-short g n h = ground arith

pub readers-IsReader : (text : Text) → IsReader readers text text (λ g. g)
unfolding readers
readers-IsReader text = record {
  new-left = λ g e. sym (ok_inj e);
  reset-ok = λ g. refl;
  reset-left = λ g. refl;
  read-left = λ g n. sym (take-drop n g);
  read-length = λ g n. length-take n g;
  read-error = read-error;
  skip-ok = λ g n h. rw (le→leb n (length g) h) refl;
  skip-left = skip-left;
  skip-short = skip-short;
}

pub readers-IsLively : (text : Text) → IsLively readers (readers-IsReader text)
unfolding readers
readers-IsLively text = record { read-some = some_bytes }
  where
    some_bytes :
        (g : Text) (n : ℕ)
        → 0 < n
        → (if is_empty g then some eof else none) ≡ none
        → 0 < length (take n g)
    some_bytes [] n asked e = cc
    some_bytes (c ∷ g) ℕ.zero asked e = absurd (omega (arith, asked))
    some_bytes (c ∷ g) (ℕ.suc n) asked e = omega arith
