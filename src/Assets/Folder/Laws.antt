-- ===== src/Assets/Folder/Laws.antt =====
-- Listing a directory in parts lists all of it, once.
use bitcoinx.Base.{
  ℕ, zero, suc, ◌+◌, ◌-◌, ◌<◌, ◌≤◌, List, [], ◌++◌, drop-end, take-drop, drop-drop, Option, none,
  some, Result, ok, err, eof, length, take, drop, ◌≡◌, refl, arith, ap, ◌∙◌, ltb, if◌then◌else◌,
  Bool-cases, inl, inr, is_eof, sym,
}
use bitcoinx.Base.Int.{pos}
use bitcoinx.Assets.{FileInfo, OpenDir}
use bitcoinx.Assets.Folder.{readdir, count_of}

abbrev prepend : List FileInfo → Option (List FileInfo) → Option (List FileInfo)
prepend es none = none
prepend es (some rest) = some (es ++ rest)

-- What a caller gets who asks for at most `suc n` entries until `io.EOF`, within a number of calls;
-- another error, or no end, gives nothing.
unfoldable pub list_all : ℕ → ℕ → OpenDir → Option (List FileInfo)
list_all zero n d = none
list_all (suc fuel) n d =
    let (r, d') = readdir d (pos (suc n)) in
    let rest = list_all fuel n d' in
    elim r [ ok es ↦ prepend es rest | err e ↦ if is_eof e then some [] else none ]

readdir-end :
    (d : OpenDir) (n : ℕ) → length d.entries ≤ d.position → readdir d (pos (suc n)) ≡ (err eof, d)
unfolding readdir
readdir-end d n h = ground arith

count_of-bounds :
    (n left : ℕ)
    → 0 < left
    → (0 < count_of (pos (suc n)) left) × (count_of (pos (suc n)) left ≤ left)
unfolding count_of
count_of-bounds n left h = ground arith

-- The number of entries that a call with `suc n` returns.
abbrev part : OpenDir → ℕ → ℕ
part d n = count_of (pos (suc n)) (length d.entries - d.position)

readdir-part :
    (d : OpenDir) (n : ℕ)
    → d.position < length d.entries
    → readdir d (pos (suc n)) ≡ (
      ok (take (part d n) (drop d.position d.entries)),
      record d { position = d.position + part d n },
    )
unfolding readdir
readdir-part d n h = ground arith

-- A list in parts goes on with the directory after a call, and stops after the last one.
abbrev listed : ℕ → ℕ → Result (List FileInfo) × OpenDir → Option (List FileInfo)
listed fuel n (ok es, d) = prepend es (list_all fuel n d)
listed fuel n (err e, d) = if is_eof e then some [] else none

list_all-listed :
    (fuel n : ℕ) (d : OpenDir) → list_all (suc fuel) n d ≡ listed fuel n (readdir d (pos (suc n)))
unfolding list_all
list_all-listed fuel n d = go (readdir d (pos (suc n)))
  where
    go :
        (x : Result (List FileInfo) × OpenDir)
        → elim (x.0) [
          | ok es ↦ prepend es (list_all fuel n x.1)
          | err e ↦ if is_eof e then some [] else none
        ]
          ≡ listed fuel n x
    go (ok es, d') = refl
    go (err e, d') = refl

list_all-drop :
    (fuel n : ℕ) (d : OpenDir)
    → d.position ≤ length d.entries
    → length d.entries - d.position < fuel
    → list_all fuel n d ≡ some (drop d.position d.entries)
list_all-drop zero n d h k = absurd (omega (arith, k))
list_all-drop (suc fuel) n d h k = elim (Bool-cases (ltb d.position (length d.entries))) [
  | inr done ↦
      list_all-listed fuel n d
      ∙ ap (listed fuel n) (readdir-end d n (ground arith))
      ∙ ap (λ (xs : List FileInfo). some xs) (sym (drop-end d.position d.entries (ground arith)))
  | inl more ↦
      let b = count_of-bounds n (length d.entries - d.position) (ground arith) in
      list_all-listed fuel n d
      ∙ ap (listed fuel n) (readdir-part d n (ground arith))
      ∙ ap (prepend (take (part d n) (drop d.position d.entries))) (
          list_all-drop fuel n (record d { position = d.position + part d n }) (ground (arith, b.1))
            (ground (arith, b.0)))
      ∙ ap (λ (xs : List FileInfo). some (take (part d n) (drop d.position d.entries) ++ xs))
          (sym (drop-drop d.position (part d n) _ d.entries refl))
      ∙ ap (λ (xs : List FileInfo). some xs) (take-drop (part d n) (drop d.position d.entries))
]

-- A directory that was just opened is listed in parts of any positive size completely, each entry
-- once and in order, and ends with `io.EOF` after at most one call more than it has entries.
pub readdir-list_all :
    (fuel n : ℕ) (d : OpenDir)
    → d.position ≡ 0
    → length d.entries < fuel
    → list_all fuel n d ≡ some d.entries
readdir-list_all fuel n d start enough =
    list_all-drop fuel n d (omega (arith, start)) (omega (arith, start, enough))
    ∙ ap (λ (p : ℕ). some (drop p d.entries)) start
