-- ===== src/Assets/Stream/Moves.antt =====
-- How `Read` brings the reader of an opened file to its place, on a reader as the package documents
-- it.
use bitcoinx.Base.{
  ℕ, zero, suc, ◌+◌, ◌<◌, ◌≤◌, List, [], ◌∷◌, ◌++◌, Option, none, some, ok, ltb, lt→ltb, le→ltb,
  ltb→lt, ltb_false→le, Error, eof, length, ◌≡◌, refl, arith, ap, sym, subst, ◌∙◌, Text, true,
  false, Bool-cases, ◌⊎◌, inl, inr, length-append,
}
use mathlib.Core.List.{append_assoc}
use bitcoinx.Base.Int.{ℤ, pos, negsuc}
use bitcoinx.Assets.{Readers, CompressedFile}
use bitcoinx.Assets.Stream.{is_ahead, missing, rewind, fast_forward}

split_length :
    {A : Type 0} (n : ℕ) (xs : List A)
    → n ≤ length xs
    → (pre : List A) × (post : List A) × (xs ≡ pre ++ post) × (length pre ≡ n)
split_length zero xs h = ([], xs, refl, refl)
split_length (suc n) [] h = absurd (omega (arith, h))
split_length (suc n) (x ∷ xs) h =
    let (pre, post, e, k) = split_length n xs (omega (arith, h)) in
    (x ∷ pre, post, ap (λ (ys : List _). x ∷ ys) e, omega (arith, k))

pub append-nil : {A : Type 0} (xs ys : List A) → xs ++ ys ≡ [] → xs ≡ []
append-nil [] ys h = refl
append-nil (x ∷ xs) ys h = cc

-- The reader on the compressed bytes `content` of a text: `left` is what it has not returned yet.
pub record IsReader {G B : Type 0} (readers : Readers G B) (content : Text) (text : Text)
    (left : G → Text) : Type 0 where
  pub new-left : (g : G) → readers.new_gzip content ≡ ok g → left g ≡ text
  pub reset-ok : (g : G) → (readers.reset g content).0 ≡ none
  pub reset-left : (g : G) → left (readers.reset g content).1 ≡ text
  pub read-left : (g : G) (n : ℕ) → left g ≡ (readers.read g n).0.0 ++ left (readers.read g n).1
  pub read-length : (g : G) (n : ℕ) → length (readers.read g n).0.0 ≤ n
  pub read-error :
      (g : G) (n : ℕ)
      → ((readers.read g n).0.1 ≡ none)
        ⊎ (((readers.read g n).0.1 ≡ some eof) × (left (readers.read g n).1 ≡ []))
  pub skip-ok : (g : G) (n : ℕ) → n ≤ length (left g) → (readers.skip g n).0 ≡ none
  pub skip-left :
      (g : G) (n : ℕ) (pre post : Text)
      → left g ≡ pre ++ post
      → length pre ≡ n
      → left (readers.skip g n).1 ≡ post
  pub skip-short :
      (g : G) (n : ℕ)
      → length (left g) < n
      → ((readers.skip g n).0 ≡ some eof) × (left (readers.skip g n).1 ≡ [])

-- The place at which a read begins.
abbrev pub place : ℤ → ℕ
place (pos n) = n
place (negsuc n) = 0

-- The bytes stand in the text, from a place.
abbrev pub StandsAt : Text → ℕ → Text → Type 0
StandsAt text n bytes =
    (pre : Text) × (post : Text) × (text ≡ pre ++ (bytes ++ post)) × (length pre ≡ n)

module _ {G B : Type 0} (readers : Readers G B) {content text : Text} {left : G → Text}
    (reader : IsReader readers content text left) where
  -- The reader is where the file says that it is.
  pub record InPlace (f : CompressedFile G) : Type 0 where
    pub of_content : f.content ≡ content
    pub passed : Text
    pub split : text ≡ passed ++ left f.gr
    pub position : length passed ≡ f.gr_pos

  -- After a step that has no error, the file is in place, and where it is.
  abbrev pub Arrives : CompressedFile G → (ℕ → Type 0) → Option Error × CompressedFile G → Type 0
  Arrives f At (e, f') = (e ≡ none) × InPlace f' × (f'.seek_pos ≡ f.seek_pos) × At f'.gr_pos

  -- The file with its reader taken elsewhere.
  abbrev pub with_reader : CompressedFile G → G → ℕ → CompressedFile G
  with_reader f g n = record f { gr = g; gr_pos = n }

  rewind-back :
      (f : CompressedFile G)
      → f.content ≡ content
      → is_ahead f.gr_pos f.seek_pos ≡ true
      → rewind readers f ≡ (none, with_reader f (readers.reset f.gr content).1 0)
  unfolding rewind
  rewind-back f e h = rw (h, e, reader.reset-ok f.gr) refl

  pub rewind-none :
      (f : CompressedFile G) → is_ahead f.gr_pos f.seek_pos ≡ false → rewind readers f ≡ (none, f)
  unfolding rewind
  rewind-none f h = rw h refl

  place-is_ahead : (n : ℕ) (z : ℤ) → is_ahead n z ≡ false → n ≤ place z
  place-is_ahead n (pos k) h = ground arith
  place-is_ahead n (negsuc k) h = cc

  pub rewind-InPlace :
      (f : CompressedFile G) → InPlace f → Arrives f (λ n. n ≤ place f.seek_pos) (rewind readers f)
  rewind-InPlace f h = elim (Bool-cases (is_ahead f.gr_pos f.seek_pos)) [
    | inl back ↦
        subst (Arrives f (λ n. n ≤ place f.seek_pos)) (sym (rewind-back f h.of_content back)) (
          refl,
          record {
            of_content = h.of_content;
            passed = [];
            split = sym (reader.reset-left f.gr);
            position = refl;
          },
          refl,
          omega arith,
        )
    | inr stay ↦
        subst (Arrives f (λ n. n ≤ place f.seek_pos)) (sym (rewind-none f stay))
          (refl, h, refl, place-is_ahead f.gr_pos f.seek_pos stay)
  ]

  abbrev pub distance : CompressedFile G → ℕ
  distance f = missing f.gr_pos f.seek_pos

  fast_forward-skip :
      (f : CompressedFile G)
      → 0 < distance f
      → (readers.skip f.gr (distance f)).0 ≡ none
      → fast_forward readers f
        ≡ (none, with_reader f (readers.skip f.gr (distance f)).1 (f.gr_pos + distance f))
  unfolding fast_forward
  fast_forward-skip f h e = rw (lt→ltb 0 (distance f) h, e) refl

  pub fast_forward-none :
      (f : CompressedFile G) → distance f ≡ 0 → fast_forward readers f ≡ (none, f)
  unfolding fast_forward
  fast_forward-none f h = rw (le→ltb 0 (distance f) (omega (arith, h))) refl

  missing-place : (n : ℕ) (z : ℤ) → n ≤ place z → n + missing n z ≡ place z
  missing-place n (pos k) h = omega (arith, h)
  missing-place n (negsuc k) h = omega (arith, h)

  pub length-left :
      (f : CompressedFile G) (h : InPlace f) → f.gr_pos + length (left f.gr) ≡ length text
  length-left f h =
      ap (λ (n : ℕ). n + length (left f.gr)) (sym h.position)
      ∙ sym (length-append h.passed (left f.gr))
      ∙ ap length (sym h.split)

  pub fast_forward-InPlace :
      (f : CompressedFile G)
      → InPlace f
      → f.gr_pos ≤ place f.seek_pos
      → place f.seek_pos ≤ length text
      → Arrives f (λ n. n ≡ place f.seek_pos) (fast_forward readers f)
  fast_forward-InPlace f h before within = elim (Bool-cases (ltb 0 (distance f))) [
    | inl far ↦
        let room : distance f ≤ length (left f.gr) =
          omega (arith, within, length-left f h, missing-place f.gr_pos f.seek_pos before) in
        let (pre, post, e, k) = split_length (distance f) (left f.gr) room in
        subst (Arrives f (λ n. n ≡ place f.seek_pos))
          (sym (fast_forward-skip f (ltb→lt _ _ far) (reader.skip-ok f.gr _ room)))
          (
            refl,
            record {
              of_content = h.of_content;
              passed = h.passed ++ pre;
              split =
                  h.split
                  ∙ ap (λ (t : Text). h.passed ++ t)
                      (e ∙ ap (λ (t : Text). pre ++ t) (sym (reader.skip-left f.gr _ pre post e k)))
                  ∙ sym (append_assoc h.passed pre _);
              position = length-append h.passed pre ∙ omega (arith, h.position, k);
            },
            refl,
            missing-place f.gr_pos f.seek_pos before,
          )
    | inr near ↦
        let none_missing : distance f ≡ 0 = omega (arith, ltb_false→le _ _ near) in
        subst (Arrives f (λ n. n ≡ place f.seek_pos)) (sym (fast_forward-none f none_missing))
          (refl, h, refl, omega (arith, missing-place f.gr_pos f.seek_pos before, none_missing))
  ]

  pub fast_forward-short :
      (f : CompressedFile G)
      → 0 < distance f
      → (readers.skip f.gr (distance f)).0 ≡ some eof
      → fast_forward readers f
        ≡ (some eof, with_reader f (readers.skip f.gr (distance f)).1 f.gr_pos)
  unfolding fast_forward
  fast_forward-short f h e = rw (lt→ltb 0 (distance f) h, e) refl
