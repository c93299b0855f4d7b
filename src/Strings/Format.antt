-- ===== src/Strings/Format.antt =====
-- The decimal text of a number reads back as the number.
use config_server.Prelude.{
  ℕ, zero, suc, ◌+◌, ◌-◌, ◌*◌, ◌/◌, ◌%◌, ◌≤◌, ◌<◌, ◌≡◌, refl, ◌∙◌, false, some, [], ◌∷◌, Bytes,
  arith, ltb, ap, is_empty, Bool-cases, inl, inr, ltb→lt,
}
use config_server.Strings.{digits_value, format_from, format_int, max_int, atoi}

-- A digit in front of a text.
digit_step :
    (k d : ℕ) (s : Bytes) → d < 10 → digits_value k ((b'0' + d) ∷ s) ≡ digits_value (k * 10 + d) s
unfolding digits_value
digit_step k d s h = ground (arith, ap (λ n. digits_value n s) same)
  where
    same : k * 10 + ((b'0' + d) - b'0') ≡ k * 10 + d
    same = omega arith

format_from-value :
    (fuel n : ℕ) (acc : Bytes)
    → n < fuel
    → digits_value 0 (format_from fuel n acc) ≡ digits_value n acc
unfolding format_from
format_from-value zero n acc h = elim h [ ]
format_from-value (suc fuel) n acc h = elim (Bool-cases (ltb n 10)) [
  | inl small ↦ rw small (
      digit_step 0 n acc (omega (arith, ltb→lt n 10 small))
      ∙ ap (λ m. digits_value m acc) (omega arith))
  | inr large ↦
      let rest = format_from-value fuel (n / 10) ((b'0' + n % 10) ∷ acc) (ground arith) in
      rw large (
        rest
        ∙ digit_step (n / 10) (n % 10) acc (omega arith)
        ∙ ap (λ m. digits_value m acc) (omega arith))
]

format_int-value : (n : ℕ) → digits_value 0 (format_int n) ≡ some n
format_int-value n =
    unfold format_int in
    format_from-value (suc n) n [] (omega arith) ∙ (unfold digits_value in refl)

pub format_int-injective : (m n : ℕ) → format_int m ≡ format_int n → m ≡ n
format_int-injective m n e =
    ground (arith, format_int-value m, format_int-value n, ap (digits_value 0) e)

format_from-filled :
    (fuel n : ℕ) (acc : Bytes) → is_empty acc ≡ false → is_empty (format_from fuel n acc) ≡ false
unfolding format_from
format_from-filled zero n acc h = h
format_from-filled (suc fuel) n acc h =
    ground (arith, format_from-filled fuel (n / 10) ((b'0' + n % 10) ∷ acc))

format_int-filled : (n : ℕ) → is_empty (format_int n) ≡ false
unfolding format_int format_from
format_int-filled n = ground (arith, format_from-filled n (n / 10) ((b'0' + n % 10) ∷ []))

-- strconv.Atoi reads every int that is not negative from its decimal text.
atoi-format_int : (n : ℕ) → n ≤ max_int → atoi (format_int n) ≡ some n
atoi-format_int n h = unfold atoi in rw (format_int-filled n, format_int-value n) (ground arith)
