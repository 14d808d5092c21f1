-- ===== src/Ui/Runes.antt =====
-- Go's `unicode/utf8.RuneCountInString` and `strings.TrimSpace`, over texts of bytes.
use mathlib.Core.List.{reverse}
use bitcoinx.Base.{
  ℕ, zero, suc, ◌-◌, ◌≤◌, ◌<◌, ◌≡◌, refl, Text, [], ◌∷◌, ◌++◌, Bool, ◌&&◌, ◌||◌, arith,
}
use bitcoinx.Base.{if◌then◌else◌, leb, ◌==◌, length, ap}

-- A byte that continues a sequence.
abbrev is_cont : ℕ → Bool
is_cont b = leb 0x80 b && leb b 0xbf

-- The second byte that may follow a leading byte of a sequence of two, three or four bytes.
second_ok : ℕ → ℕ → Bool
second_ok c b =
    if c == 0xe0
    then leb 0xa0 b && leb b 0xbf
    else if c == 0xed
    then leb 0x80 b && leb b 0x9f
    else if c == 0xf0
    then leb 0x90 b && leb b 0xbf
    else if c == 0xf4
    then leb 0x80 b && leb b 0x8f
    else is_cont b

-- The length that a leading byte announces; any other byte stands alone.
announced : ℕ → ℕ
announced c =
    if leb 0xc2 c && leb c 0xdf
    then 2
    else if leb 0xe0 c && leb c 0xef
    then 3
    else if leb 0xf0 c && leb c 0xf4
    then 4
    else 1

-- How many bytes behind `c` belong to its rune. An invalid or cut sequence has none.
behind_two : ℕ → Text → ℕ
behind_two c [] = 0
behind_two c (b ∷ s) = if second_ok c b then 1 else 0

behind_three : ℕ → Text → ℕ
behind_three c [] = 0
behind_three c (b ∷ []) = 0
behind_three c (b ∷ d ∷ s) = if second_ok c b && is_cont d then 2 else 0

behind_four : ℕ → Text → ℕ
behind_four c [] = 0
behind_four c (b ∷ []) = 0
behind_four c (b ∷ d ∷ []) = 0
behind_four c (b ∷ d ∷ e ∷ s) = if second_ok c b && (is_cont d && is_cont e) then 3 else 0

unfoldable pub bytes_behind : ℕ → Text → ℕ
unfolding announced behind_two behind_three behind_four second_ok
bytes_behind c s =
    if announced c == 2
    then behind_two c s
    else if announced c == 3
    then behind_three c s
    else if announced c == 4
    then behind_four c s
    else 0

-- The runes that start behind the first `k` bytes, where these belong to one that has started.
unfoldable pub count_runes : ℕ → Text → ℕ
count_runes k [] = 0
count_runes (suc k) (c ∷ s) = count_runes k s
count_runes zero (c ∷ s) = suc (count_runes (bytes_behind c s) s)

-- `utf8.RuneCountInString`
unfoldable pub rune_count : Text → ℕ
unfolding count_runes bytes_behind
rune_count s = count_runes 0 s

-- The length of the white space character at the front, 0 if there is none.
ascii_space : ℕ → Bool
ascii_space c = (leb 9 c && leb c 13) || c == 32

space_at_front : Text → ℕ
unfolding ascii_space
space_at_front [] = 0
space_at_front (a ∷ []) = if ascii_space a then 1 else 0
space_at_front (a ∷ b ∷ []) =
    if ascii_space a then 1 else if a == 0xc2 && (b == 0x85 || b == 0xa0) then 2 else 0
space_at_front (a ∷ b ∷ c ∷ s) =
    if ascii_space a
    then 1
    else if a == 0xc2 && (b == 0x85 || b == 0xa0)
    then 2
    else if (a == 0xe1 && b == 0x9a && c == 0x80)
        || (a == 0xe2
            && b == 0x80
            && ((leb 0x80 c && leb c 0x8a) || c == 0xa8 || c == 0xa9 || c == 0xaf))
        || (a == 0xe2 && b == 0x81 && c == 0x9f)
        || (a == 0xe3 && b == 0x80 && c == 0x80)
    then 3
    else 0

-- The same for a text that is read from its end.
space_at_back : Text → ℕ
unfolding space_at_front
space_at_back [] = 0
space_at_back (a ∷ []) = space_at_front (a ∷ [])
space_at_back (b ∷ a ∷ []) =
    if ascii_space b then 1 else if space_at_front (a ∷ b ∷ []) == 2 then 2 else 0
space_at_back (c ∷ b ∷ a ∷ s) =
    if ascii_space c
    then 1
    else if space_at_front (b ∷ c ∷ []) == 2
    then 2
    else if space_at_front (a ∷ b ∷ c ∷ []) == 3
    then 3
    else 0

-- Drop spaces at the front, after `k` bytes of one that has started.
drop_spaces : (Text → ℕ) → ℕ → Text → Text
drop_spaces size k [] = []
drop_spaces size (suc k) (c ∷ s) = drop_spaces size k s
drop_spaces size zero (c ∷ s) =
    let n = size (c ∷ s) in let rest = drop_spaces size (n - 1) s in if n == 0 then c ∷ s else rest

-- `strings.TrimSpace`
unfoldable pub trim_space : Text → Text
unfolding drop_spaces space_at_front space_at_back
trim_space s = reverse (drop_spaces space_at_back 0 (reverse (drop_spaces space_at_front 0 s)))

bytes_behind-le : (c : ℕ) (s : Text) → bytes_behind c s ≤ length s
unfolding bytes_behind
bytes_behind-le c [] = ground arith
bytes_behind-le c (a ∷ []) = ground arith
bytes_behind-le c (a ∷ b ∷ []) = ground arith
bytes_behind-le c (a ∷ b ∷ d ∷ s) = ground arith

-- A space behind a text belongs to no sequence of it.
bytes_behind-space : (c : ℕ) (s : Text) → bytes_behind c (s ++ 32 ∷ []) ≡ bytes_behind c s
unfolding bytes_behind
bytes_behind-space c [] = ground arith
bytes_behind-space c (a ∷ []) = ground arith
bytes_behind-space c (a ∷ b ∷ []) = ground arith
bytes_behind-space c (a ∷ b ∷ d ∷ s) = ground arith

count_runes-le : (k : ℕ) (s : Text) → count_runes k s ≤ length s
unfolding count_runes
count_runes-le k [] = omega arith
count_runes-le (suc k) (c ∷ s) = omega (arith, count_runes-le k s)
count_runes-le zero (c ∷ s) = omega (arith, count_runes-le (bytes_behind c s) s)

count_runes-space :
    (k : ℕ) (s : Text) → k ≤ length s → count_runes k (s ++ 32 ∷ []) ≡ suc (count_runes k s)
unfolding count_runes
count_runes-space zero [] h = refl
count_runes-space (suc k) [] h = absurd (omega arith)
count_runes-space (suc k) (c ∷ s) h = count_runes-space k s (omega arith)
count_runes-space zero (c ∷ s) h =
    ap suc
      (rw (bytes_behind-space c s) (count_runes-space (bytes_behind c s) s (bytes_behind-le c s)))

-- A text has at most as many runes as bytes.
pub rune_count-le : (s : Text) → rune_count s ≤ length s
unfolding rune_count
rune_count-le s = count_runes-le 0 s

-- A space at the end is one more rune, also behind a cut sequence.
pub rune_count-space : (s : Text) → rune_count (s ++ 32 ∷ []) ≡ suc (rune_count s)
unfolding rune_count
rune_count-space s = count_runes-space 0 s (omega arith)

-- An ASCII character and a space are two runes.
pub rune_count-ascii : (c : ℕ) → c < 128 → rune_count (c ∷ 32 ∷ []) ≡ 2
unfolding rune_count
rune_count-ascii c h = ground arith
