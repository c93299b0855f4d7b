-- ===== src/Strings/Laws.antt =====
-- Laws of trimming and splitting on the texts that the program's formats are made of.
use mathlib.Core.List.{reverse, reverse-append, reverse-reverse}
use config_server.Prelude.{
  ℕ, ◌≡◌, refl, ap, ◌∙◌, Bool, true, false, ◌&&◌, [], ◌∷◌, ◌++◌, Bytes, arith, leb, ◌==◌,
  if◌then◌else◌,
}
use config_server.Strings.{trim_left, trim_back, trim_right, trim_space, push, split, split_pair}

-- A printable ASCII byte that is no space.
abbrev is_solid : ℕ → Bool
is_solid c = leb 33 c && leb c 126

abbrev pub starts_solid : Bytes → Bool
starts_solid [] = false
starts_solid (c ∷ s) = is_solid c

abbrev pub ends_solid : Bytes → Bool
ends_solid [] = false
ends_solid (c ∷ []) = is_solid c
ends_solid (c ∷ d ∷ s) = ends_solid (d ∷ s)

-- No byte of the text is the separator.
abbrev pub lacks : ℕ → Bytes → Bool
lacks sep [] = true
lacks sep (c ∷ s) = if c == sep then false else lacks sep s

pub starts_solid-append : (s t : Bytes) → starts_solid s ≡ true → starts_solid (s ++ t) ≡ true
starts_solid-append [] t h = cc
starts_solid-append (c ∷ s) t h = h

pub ends_solid-append : (s t : Bytes) → ends_solid t ≡ true → ends_solid (s ++ t) ≡ true
ends_solid-append [] t h = h
ends_solid-append (c ∷ []) [] h = cc
ends_solid-append (c ∷ []) (d ∷ t) h = h
ends_solid-append (c ∷ d ∷ s) t h = ends_solid-append (d ∷ s) t h

pub lacks-append :
    (sep : ℕ) (s t : Bytes) → lacks sep s ≡ true → lacks sep t ≡ true → lacks sep (s ++ t) ≡ true
lacks-append sep [] t hs ht = ht
lacks-append sep (c ∷ s) t hs ht = ground (arith, lacks-append sep s t)

starts_solid-reverse : (s : Bytes) → ends_solid s ≡ true → starts_solid (reverse s) ≡ true
starts_solid-reverse [] h = cc
starts_solid-reverse (c ∷ []) h = h
starts_solid-reverse (c ∷ d ∷ s) h =
    rw (reverse-append (c ∷ []) (d ∷ s))
      (starts_solid-append (reverse (d ∷ s)) (c ∷ []) (starts_solid-reverse (d ∷ s) h))

trim_left-solid : (s : Bytes) → starts_solid s ≡ true → trim_left s ≡ s
unfolding trim_left
trim_left-solid [] h = refl
trim_left-solid (a ∷ []) h = ground arith
trim_left-solid (a ∷ b ∷ []) h = ground arith
trim_left-solid (a ∷ b ∷ c ∷ s) h = ground arith

trim_back-solid : (s : Bytes) → starts_solid s ≡ true → trim_back s ≡ s
unfolding trim_back
trim_back-solid [] h = refl
trim_back-solid (a ∷ []) h = ground arith
trim_back-solid (a ∷ b ∷ []) h = ground arith
trim_back-solid (a ∷ b ∷ c ∷ s) h = ground arith

trim_back-space : (s : Bytes) → trim_back (32 ∷ s) ≡ trim_back s
unfolding trim_back
trim_back-space [] = refl
trim_back-space (a ∷ []) = refl
trim_back-space (a ∷ b ∷ s) = refl

trim_right-solid : (s : Bytes) → ends_solid s ≡ true → trim_right s ≡ s
trim_right-solid s h =
    unfold trim_right in
    rw (trim_back-solid (reverse s) (starts_solid-reverse s h)) (reverse-reverse s)

trim_right-append_space : (s : Bytes) → trim_right (s ++ 32 ∷ []) ≡ trim_right s
trim_right-append_space s =
    unfold trim_right in rw (reverse-append s (32 ∷ [])) (ap reverse (trim_back-space (reverse s)))

-- A text that starts and ends with solid bytes has nothing to trim.
pub trim_space-solid : (s : Bytes) → starts_solid s ≡ true → ends_solid s ≡ true → trim_space s ≡ s
unfolding trim_space
trim_space-solid s hs he = rw (trim_left-solid s hs) (trim_right-solid s he)

-- A leading space makes no difference.
pub trim_space-space : (s : Bytes) → trim_space (32 ∷ s) ≡ trim_space s
unfolding trim_space
trim_space-space [] = refl
trim_space-space (a ∷ []) = refl
trim_space-space (a ∷ b ∷ s) = refl

-- Nor does a trailing one.
pub trim_space-append_space :
    (s : Bytes) → starts_solid s ≡ true → ends_solid s ≡ true → trim_space (s ++ 32 ∷ []) ≡ s
unfolding trim_space
trim_space-append_space s hs he =
    rw (trim_left-solid (s ++ 32 ∷ []) (starts_solid-append s (32 ∷ []) hs))
      (trim_right-append_space s ∙ trim_right-solid s he)

-- A part up to the separator, and the parts of what follows.
pub split-append :
    (sep : ℕ) (s t : Bytes) → lacks sep s ≡ true → split sep (s ++ sep ∷ t) ≡ s ∷ split sep t
unfolding split
split-append sep [] t h = ground arith
split-append sep (c ∷ s) t h = ground (arith, split-append sep s t)

pub split-lacks : (sep : ℕ) (s : Bytes) → lacks sep s ≡ true → split sep s ≡ s ∷ []
unfolding split
split-lacks sep [] h = refl
split-lacks sep (c ∷ s) h = ground (arith, split-lacks sep s)

split_pair-cons :
    (a b c : ℕ) (s : Bytes) → (c == a) ≡ false → split_pair a b (c ∷ s) ≡ push c (split_pair a b s)
unfolding split_pair
split_pair-cons a b c [] h = refl
split_pair-cons a b c (d ∷ s) h = ground arith

pub split_pair-append :
    (a b : ℕ) (s t : Bytes)
    → lacks a s ≡ true
    → split_pair a b (s ++ a ∷ b ∷ t) ≡ s ∷ split_pair a b t
split_pair-append a b [] t h = unfold split_pair in ground arith
split_pair-append a b (c ∷ s) t h =
    ground (arith, split_pair-cons a b c (s ++ a ∷ b ∷ t), split_pair-append a b s t)

pub split_pair-lacks : (a b : ℕ) (s : Bytes) → lacks a s ≡ true → split_pair a b s ≡ s ∷ []
split_pair-lacks a b [] h = unfold split_pair in refl
split_pair-lacks a b (c ∷ s) h = ground (arith, split_pair-cons a b c s, split_pair-lacks a b s)
