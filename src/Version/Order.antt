-- ===== src/Version/Order.antt =====
-- compareVersions decides the order of the padded segments at their first difference.
use Prim.Native.Nat.{compare, Ordering}
use config_server.Prelude.{
  ℕ, zero, suc, ◌<◌, ◌≡◌, refl, ◌≢◌, sym, ◌∙◌, ◌↔◌, ◌⊎◌, inl, inr, List, [], ◌∷◌, Bytes, arith,
  get_or,
}
use config_server.Version.{decide_by, compare_segments, version_segments, compare_versions}

-- The first lists differ at `i`, and there the first is the smaller one; 0 stands past an end.
abbrev pub Earlier : List ℕ → List ℕ → Type 0
Earlier xs ys =
    (i : ℕ) × ((j : ℕ) → j < i → get_or xs j 0 ≡ get_or ys j 0) × (get_or xs i 0 < get_or ys i 0)

abbrev pub SameSegments : List ℕ → List ℕ → Type 0
SameSegments xs ys = (i : ℕ) → get_or xs i 0 ≡ get_or ys i 0

abbrev rest : List ℕ → List ℕ
rest [] = []
rest (x ∷ xs) = xs

get_or-rest : (xs : List ℕ) (i : ℕ) → get_or (rest xs) i 0 ≡ get_or xs (suc i) 0
get_or-rest [] i = refl
get_or-rest (x ∷ xs) i = refl

unroll :
    (xs ys : List ℕ)
    → compare_segments xs ys
      ≡ decide_by (compare (get_or xs 0 0) (get_or ys 0 0)) (compare_segments (rest xs) (rest ys))
unfolding compare_segments
unroll [] [] = refl
unroll [] (y ∷ ys) = refl
unroll (x ∷ xs) [] = refl
unroll (x ∷ xs) (y ∷ ys) = refl

-- The order of the second list first.
abbrev flip : Ordering → Ordering
flip Ordering.lt = Ordering.gt
flip Ordering.gt = Ordering.lt
flip Ordering.eq = Ordering.eq

compare_segments-flip : (xs ys : List ℕ) → compare_segments ys xs ≡ flip (compare_segments xs ys)
unfolding compare_segments
compare_segments-flip [] [] = refl
compare_segments-flip [] (y ∷ ys) = ground (arith, compare_segments-flip [] ys)
compare_segments-flip (x ∷ xs) [] = ground (arith, compare_segments-flip xs [])
compare_segments-flip (x ∷ xs) (y ∷ ys) = ground (arith, compare_segments-flip xs ys)

earlier→lt :
    (i : ℕ) (xs ys : List ℕ)
    → ((j : ℕ) → j < i → get_or xs j 0 ≡ get_or ys j 0)
    → get_or xs i 0 < get_or ys i 0
    → compare_segments xs ys ≡ Ordering.lt
earlier→lt zero xs ys same less = ground (arith, unroll xs ys)
earlier→lt (suc i) xs ys same less = ground (
  arith,
  unroll xs ys,
  same 0 (omega arith),
  earlier→lt i (rest xs) (rest ys)
      (λ j h. get_or-rest xs j ∙ same (suc j) (omega arith) ∙ sym (get_or-rest ys j))
      (omega (arith, get_or-rest xs i, get_or-rest ys i)),
)

same→eq : (xs ys : List ℕ) → SameSegments xs ys → compare_segments xs ys ≡ Ordering.eq
unfolding compare_segments
same→eq [] [] same = refl
same→eq [] (y ∷ ys) same = ground (arith, same 0, same→eq [] ys (λ i. same (suc i)))
same→eq (x ∷ xs) [] same = ground (arith, same 0, same→eq xs [] (λ i. same (suc i)))
same→eq (x ∷ xs) (y ∷ ys) same = ground (arith, same 0, same→eq xs ys (λ i. same (suc i)))

eq→same :
    (i : ℕ) (xs ys : List ℕ) → compare_segments xs ys ≡ Ordering.eq → get_or xs i 0 ≡ get_or ys i 0
eq→same zero xs ys h = ground (arith, unroll xs ys)
eq→same (suc i) xs ys h =
    ground (arith, unroll xs ys, get_or-rest xs i, get_or-rest ys i, eq→same i (rest xs) (rest ys))

-- A first difference of the rests is one of the lists, where the heads agree.
Earlier-later :
    (xs ys : List ℕ) → get_or xs 0 0 ≡ get_or ys 0 0 → Earlier (rest xs) (rest ys) → Earlier xs ys
Earlier-later xs ys head (i, same, less) =
    (suc i, agree, omega (arith, get_or-rest xs i, get_or-rest ys i))
  where
    agree : (j : ℕ) → j < suc i → get_or xs j 0 ≡ get_or ys j 0
    agree zero h = head
    agree (suc j) h = sym (get_or-rest xs j) ∙ same j (omega arith) ∙ get_or-rest ys j

-- What the head decides, where the comparison gives `lt`.
lt_cases :
    (xs ys : List ℕ)
    → compare_segments xs ys ≡ Ordering.lt
    → (get_or xs 0 0 < get_or ys 0 0)
      ⊎ ((get_or xs 0 0 ≡ get_or ys 0 0) × (compare_segments (rest xs) (rest ys) ≡ Ordering.lt))
lt_cases xs ys h = ground (arith, unroll xs ys)

lt_here : (xs ys : List ℕ) → get_or xs 0 0 < get_or ys 0 0 → Earlier xs ys
lt_here xs ys less = (0, λ j h. absurd (omega arith), less)

lt→earlier : (xs ys : List ℕ) → compare_segments xs ys ≡ Ordering.lt → Earlier xs ys
lt→earlier [] [] h = cc (same→eq [] [] (λ i. refl))
lt→earlier [] (y ∷ ys) h = elim (lt_cases [] (y ∷ ys) h) [
  | inl less ↦ lt_here [] (y ∷ ys) less
  | inr (head, more) ↦ Earlier-later [] (y ∷ ys) head (lt→earlier [] ys more)
]
lt→earlier (x ∷ xs) [] h = elim (lt_cases (x ∷ xs) [] h) [
  | inl less ↦ lt_here (x ∷ xs) [] less
  | inr (head, more) ↦ Earlier-later (x ∷ xs) [] head (lt→earlier xs [] more)
]
lt→earlier (x ∷ xs) (y ∷ ys) h = elim (lt_cases (x ∷ xs) (y ∷ ys) h) [
  | inl less ↦ lt_here (x ∷ xs) (y ∷ ys) less
  | inr (head, more) ↦ Earlier-later (x ∷ xs) (y ∷ ys) head (lt→earlier xs ys more)
]

-- compareVersions of any two texts: -1 exactly where the first version is the smaller one at the
-- first segment that differs, +1 exactly where the second is, and 0 exactly where all segments
-- agree; a segment that is not there counts as 0.
pub compare_versions_decides :
    (a b : Bytes)
    → ((compare_versions a b ≡ Ordering.lt) ↔ Earlier (version_segments a) (version_segments b))
      × ((compare_versions a b ≡ Ordering.gt) ↔ Earlier (version_segments b) (version_segments a))
      × ((compare_versions a b ≡ Ordering.eq)
          ↔ SameSegments (version_segments a) (version_segments b))
unfolding compare_versions
compare_versions_decides a b =
    let xs = version_segments a in
    let ys = version_segments b in
    (
      (lt→earlier xs ys, λ e. earlier→lt e.0 xs ys e.1 e.2),
      (
        λ h. lt→earlier ys xs (ground (arith, compare_segments-flip xs ys)),
        λ e. ground (arith, compare_segments-flip ys xs, earlier→lt e.0 ys xs e.1 e.2),
      ),
      (λ h i. eq→same i xs ys h, same→eq xs ys),
    )

trans :
    (xs ys zs : List ℕ)
    → compare_segments xs ys ≢ Ordering.gt
    → compare_segments ys zs ≢ Ordering.gt
    → compare_segments xs zs ≢ Ordering.gt
trans [] [] [] p q = p
trans [] [] (z ∷ zs) p q = q
trans [] (y ∷ ys) [] p q = ground (arith, same→eq [] [] (λ i. refl))
trans (x ∷ xs) [] [] p q = p
trans [] (y ∷ ys) (z ∷ zs) p q =
    ground (arith, unroll [] (y ∷ ys), unroll (y ∷ ys) (z ∷ zs), unroll [] (z ∷ zs), trans [] ys zs)
trans (x ∷ xs) [] (z ∷ zs) p q =
    ground (arith, unroll (x ∷ xs) [], unroll [] (z ∷ zs), unroll (x ∷ xs) (z ∷ zs), trans xs [] zs)
trans (x ∷ xs) (y ∷ ys) [] p q =
    ground (arith, unroll (x ∷ xs) (y ∷ ys), unroll (y ∷ ys) [], unroll (x ∷ xs) [], trans xs ys [])
trans (x ∷ xs) (y ∷ ys) (z ∷ zs) p q = ground (
  arith,
  unroll (x ∷ xs) (y ∷ ys),
  unroll (y ∷ ys) (z ∷ zs),
  unroll (x ∷ xs) (z ∷ zs),
  trans xs ys zs,
)

-- A version that is not after a second one, which is not after a third, is not after the third.
compare_versions_trans :
    (a b c : Bytes)
    → compare_versions a b ≢ Ordering.gt
    → compare_versions b c ≢ Ordering.gt
    → compare_versions a c ≢ Ordering.gt
unfolding compare_versions
compare_versions_trans a b c = trans (version_segments a) (version_segments b) (version_segments c)
