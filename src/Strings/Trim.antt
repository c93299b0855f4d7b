-- ===== src/Strings/Trim.antt =====
-- TrimSpace changes nothing a second time.
use mathlib.Core.List.{reverse, reverse-append, reverse-reverse}
use config_server.Prelude.{
  ℕ, ◌≡◌, refl, ap, sym, ◌∙◌, Bool, false, ◌||◌, [], ◌∷◌, ◌++◌, Bytes, arith, if◌then◌else◌,
}
use config_server.Strings.{
  is_space, is_space_two, is_space_three, trim_front, trim_left, trim_back, trim_right, trim_space,
}

module _ (two : ℕ → ℕ → Bool) (three : ℕ → ℕ → ℕ → Bool) where
  -- The text starts with white space.
  abbrev starts_space : Bytes → Bool
  starts_space [] = false
  starts_space (a ∷ []) = is_space a
  starts_space (a ∷ b ∷ []) = is_space a || two a b
  starts_space (a ∷ b ∷ c ∷ s) = is_space a || two a b || three a b c

  trim_front-starts : (s : Bytes) → starts_space (trim_front two three s) ≡ false
  unfolding trim_front
  trim_front-starts [] = refl
  trim_front-starts (a ∷ []) = ground arith
  trim_front-starts (a ∷ b ∷ []) = ground (arith, trim_front-starts (b ∷ []))
  trim_front-starts (a ∷ b ∷ c ∷ s) =
      ground (arith, trim_front-starts (b ∷ c ∷ s), trim_front-starts (c ∷ s), trim_front-starts s)

  trim_front-trimmed : (s : Bytes) → starts_space s ≡ false → trim_front two three s ≡ s
  unfolding trim_front
  trim_front-trimmed [] h = refl
  trim_front-trimmed (a ∷ []) h = ground arith
  trim_front-trimmed (a ∷ b ∷ []) h = ground arith
  trim_front-trimmed (a ∷ b ∷ c ∷ s) h = ground arith

  starts_space-append : (s t : Bytes) → starts_space (s ++ t) ≡ false → starts_space s ≡ false
  starts_space-append [] t h = refl
  starts_space-append (a ∷ []) [] h = h
  starts_space-append (a ∷ []) (b ∷ []) h = ground arith
  starts_space-append (a ∷ []) (b ∷ c ∷ t) h = ground arith
  starts_space-append (a ∷ b ∷ []) [] h = h
  starts_space-append (a ∷ b ∷ []) (c ∷ t) h = ground arith
  starts_space-append (a ∷ b ∷ c ∷ s) t h = h

  -- What is dropped, which stands at the front.
  abbrev dropped : Bytes → Bytes
  dropped [] = []
  dropped (a ∷ []) = if is_space a then a ∷ [] else []
  dropped (a ∷ b ∷ []) =
      let rest = dropped (b ∷ []) in
      if is_space a then a ∷ rest else if two a b then a ∷ b ∷ [] else []
  dropped (a ∷ b ∷ c ∷ s) =
      let one_less = dropped (b ∷ c ∷ s) in
      let two_less = dropped (c ∷ s) in
      let three_less = dropped s in
      if is_space a
      then a ∷ one_less
      else if two a b
      then a ∷ b ∷ two_less
      else if three a b c
      then a ∷ b ∷ c ∷ three_less
      else []

  dropped-append : (s : Bytes) → dropped s ++ trim_front two three s ≡ s
  unfolding trim_front
  dropped-append [] = refl
  dropped-append (a ∷ []) = ground arith
  dropped-append (a ∷ b ∷ []) = ground (arith, dropped-append (b ∷ []))
  dropped-append (a ∷ b ∷ c ∷ s) =
      ground (arith, dropped-append (b ∷ c ∷ s), dropped-append (c ∷ s), dropped-append s)

abbrev back_two : ℕ → ℕ → Bool
back_two b a = is_space_two a b

abbrev back_three : ℕ → ℕ → ℕ → Bool
back_three c b a = is_space_three a b c

abbrev starts_left : Bytes → Bool
starts_left = starts_space is_space_two is_space_three

trim_left-starts : (s : Bytes) → starts_left (trim_left s) ≡ false
unfolding trim_left
trim_left-starts = trim_front-starts is_space_two is_space_three

trim_left-trimmed : (s : Bytes) → starts_left s ≡ false → trim_left s ≡ s
unfolding trim_left
trim_left-trimmed = trim_front-trimmed is_space_two is_space_three

trim_back-again : (s : Bytes) → trim_back (trim_back s) ≡ trim_back s
unfolding trim_back
trim_back-again s =
    trim_front-trimmed back_two back_three (trim_back s) (trim_front-starts back_two back_three s)

trim_right-again : (s : Bytes) → trim_right (trim_right s) ≡ trim_right s
unfolding trim_right
trim_right-again s = rw (reverse-reverse (trim_back (reverse s))) (rw (trim_back-again (reverse s)))

-- What is left of a text by trimming its end starts as the text does.
trim_right-prefix :
    (s : Bytes) → trim_right s ++ reverse (dropped back_two back_three (reverse s)) ≡ s
unfolding trim_right
trim_right-prefix s =
    let d = dropped back_two back_three (reverse s) in
    sym (reverse-append d (trim_back (reverse s)))
    ∙ ap reverse (unfold trim_back in dropped-append back_two back_three (reverse s))
    ∙ reverse-reverse s

trim_right-starts : (s : Bytes) → starts_left s ≡ false → starts_left (trim_right s) ≡ false
trim_right-starts s h =
    let d = reverse (dropped back_two back_three (reverse s)) in
    starts_space-append is_space_two is_space_three (trim_right s) d
      (ap starts_left (trim_right-prefix s) ∙ h)

pub trim_space-again : (s : Bytes) → trim_space (trim_space s) ≡ trim_space s
unfolding trim_space
trim_space-again s =
    rw
      (trim_left-trimmed (trim_right (trim_left s))
        (trim_right-starts (trim_left s) (trim_left-starts s)))
      (trim_right-again (trim_left s))
