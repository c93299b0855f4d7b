-- ===== src/Strings.antt =====
-- The functions of Go's strings and strconv packages that the program calls: TrimSpace, TrimPrefix,
-- HasPrefix, Contains, Split and Atoi.
pub mod Laws
pub mod Trim
pub mod Format
use mathlib.Core.List.{reverse}
use mathlib.Core.Option
use config_server.Prelude.{
  ℕ, zero, suc, ◌+◌, ◌-◌, ◌*◌, ◌/◌, ◌%◌, ◌^◌, Bool, true, false, ◌&&◌, ◌||◌, Option, none, some,
  List, [], ◌∷◌, ◌++◌, Bytes, bytes_eq, ℤ, pos, negsuc, leb, ltb, ◌==◌, if◌then◌else◌, is_empty,
}

-- White space of one byte, and the UTF-8 encodings of the white space of two and of three bytes.
abbrev pub is_space : ℕ → Bool
is_space c = (leb 9 c && leb c 13) || c == 32

abbrev is_space_two : ℕ → ℕ → Bool
is_space_two a b = a == 0xc2 && (b == 0x85 || b == 0xa0)

abbrev is_space_three : ℕ → ℕ → ℕ → Bool
is_space_three a b c =
    (a == 0xe1 && b == 0x9a && c == 0x80)
    || (a == 0xe2
        && b == 0x80
        && ((leb 0x80 c && leb c 0x8a) || c == 0xa8 || c == 0xa9 || c == 0xaf))
    || (a == 0xe2 && b == 0x81 && c == 0x9f)
    || (a == 0xe3 && b == 0x80 && c == 0x80)

-- Drops white space from the front, with the tests for two and three bytes.
trim_front : (ℕ → ℕ → Bool) → (ℕ → ℕ → ℕ → Bool) → Bytes → Bytes
trim_front two three [] = []
trim_front two three (a ∷ []) = if is_space a then [] else a ∷ []
trim_front two three (a ∷ b ∷ []) =
    let rest = trim_front two three (b ∷ []) in
    if is_space a then rest else if two a b then [] else a ∷ b ∷ []
trim_front two three (a ∷ b ∷ c ∷ s) =
    let one_less = trim_front two three (b ∷ c ∷ s) in
    let two_less = trim_front two three (c ∷ s) in
    let three_less = trim_front two three s in
    if is_space a
    then one_less
    else if two a b
    then two_less
    else if three a b c
    then three_less
    else a ∷ b ∷ c ∷ s

trim_left : Bytes → Bytes
unfolding trim_front
trim_left s = trim_front is_space_two is_space_three s

-- The text is read from its last byte on.
trim_back : Bytes → Bytes
unfolding trim_front
trim_back s = trim_front (λ b a. is_space_two a b) (λ c b a. is_space_three a b c) s

trim_right : Bytes → Bytes
unfolding trim_back
trim_right s = reverse (trim_back (reverse s))

unfoldable pub trim_space : Bytes → Bytes
unfolding trim_left trim_right
trim_space s = trim_right (trim_left s)

-- strings.TrimPrefix, `none` where the text has no such prefix.
unfoldable pub strip_prefix : Bytes → Bytes → Option Bytes
strip_prefix [] s = some s
strip_prefix (p ∷ ps) [] = none
strip_prefix (p ∷ ps) (c ∷ s) = if p == c then strip_prefix ps s else none

unfoldable pub has_prefix : Bytes → Bytes → Bool
unfolding strip_prefix
has_prefix p s = elim (strip_prefix p s) [ none ↦ false | some _ ↦ true ]

-- One more byte at the front of the first part.
abbrev pub push : ℕ → List Bytes → List Bytes
push c [] = (c ∷ []) ∷ []
push c (w ∷ ws) = (c ∷ w) ∷ ws

-- strings.Split with a separator of one byte, and of two.
unfoldable pub split : ℕ → Bytes → List Bytes
split sep [] = [] ∷ []
split sep (c ∷ s) = let rest = split sep s in if c == sep then [] ∷ rest else push c rest

unfoldable pub split_pair : ℕ → ℕ → Bytes → List Bytes
split_pair a b [] = [] ∷ []
split_pair a b (c ∷ []) = (c ∷ []) ∷ []
split_pair a b (c ∷ d ∷ s) =
    let next = split_pair a b s in
    let rest = split_pair a b (d ∷ s) in if c == a && d == b then [] ∷ next else push c rest

abbrev is_digit : ℕ → Bool
is_digit c = leb b'0' c && leb c b'9'

abbrev pub max_int : ℕ
max_int = 2 ^ 63 - 1

pub digits_value : ℕ → Bytes → Option ℕ
digits_value n [] = some n
digits_value n (c ∷ s) = if is_digit c then digits_value (n * 10 + (c - b'0')) s else none

-- strconv.Atoi of a text without a sign: decimal digits, at least one, in the range of int.
unfoldable pub atoi : Bytes → Option ℕ
unfolding digits_value
atoi s =
    if is_empty s
    then none
    else elim (digits_value 0 s) [ none ↦ none | some n ↦ if ltb max_int n then none else some n ]

-- strconv.Atoi, with a sign or without.
unfoldable pub atoi_int : Bytes → Option ℤ
unfolding digits_value
atoi_int [] = none
atoi_int (c ∷ s) =
    if c == b'-'
    then (if is_empty s then none else elim (digits_value 0 s) [
      | none ↦ none
      | some n ↦
          if ltb (max_int + 1) n then none else some (if n == 0 then pos 0 else negsuc (n - 1))
    ])
    else Option.map pos (atoi (if c == b'+' then s else c ∷ s))

-- strings.Contains for a text of one byte.
unfoldable pub contains : ℕ → Bytes → Bool
contains b [] = false
contains b (c ∷ s) = c == b || contains b s

-- strconv.FormatInt with base 10 of a number that is not negative. The fuel is the number and one,
-- which is more than it has digits.
pub format_from : ℕ → ℕ → Bytes → Bytes
format_from zero n acc = acc
format_from (suc fuel) n acc =
    let rest = format_from fuel (n / 10) ((b'0' + n % 10) ∷ acc) in
    if ltb n 10 then (b'0' + n) ∷ acc else rest

unfoldable pub format_int : ℕ → Bytes
format_int n = format_from (suc n) n []

-- strings.Join, the separator first.
unfoldable pub join : Bytes → List Bytes → Bytes
join sep [] = []
join sep (s ∷ []) = s
join sep (s ∷ t ∷ ss) = s ++ sep ++ join sep (t ∷ ss)

-- strings.SplitN(s, "/", 2), where it gives two parts.
unfoldable pub cut_slash : Bytes → Option (Bytes × Bytes)
cut_slash [] = none
cut_slash (c ∷ s) =
    let rest = cut_slash s in
    if c == b'/'
    then some ([], s)
    else elim rest [ none ↦ none | some (before, after) ↦ some (c ∷ before, after) ]
