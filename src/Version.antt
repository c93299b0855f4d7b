-- ===== src/Version.antt =====
-- internal/model/semver.go. The results -1, 0 and +1 of compareVersions are `lt`, `eq` and `gt`.
pub mod Order
pub mod Syntax
mod Tests
use Prim.Native.Nat.{compare, Ordering}
use config_server.Prelude.{
  ℕ, Bool, true, false, ◌&&◌, ◌||◌, Option, none, some, List, [], ◌∷◌, Bytes, codes, ◌==◌,
  if◌then◌else◌, is_empty,
}
use config_server.Strings.{trim_space, strip_prefix, split, split_pair, atoi}

-- The text before the first '-' or '+'.
unfoldable pub cut_label : Bytes → Bytes
cut_label [] = []
cut_label (c ∷ p) = let rest = cut_label p in if c == b'-' || c == b'+' then [] else c ∷ rest

-- The loop over the parts: a part that is no number ends it.
unfoldable pub parse_segments : List Bytes → List ℕ
parse_segments [] = []
parse_segments (p ∷ parts) =
    let rest = parse_segments parts in elim (atoi (cut_label p)) [ none ↦ [] | some n ↦ n ∷ rest ]

abbrev or_else : Option Bytes → Bytes → Bytes
or_else none s = s
or_else (some t) s = t

unfoldable pub version_segments : Bytes → List ℕ
version_segments v = parse_segments (split b'.' (or_else (strip_prefix (b'v' ∷ []) v) v))

-- One round of the loop: the first difference decides.
abbrev pub decide_by : Ordering → Ordering → Ordering
decide_by Ordering.lt rest = Ordering.lt
decide_by Ordering.gt rest = Ordering.gt
decide_by Ordering.eq rest = rest

-- The loop over the longer length, with 0 past the end of a list.
unfoldable pub compare_segments : List ℕ → List ℕ → Ordering
compare_segments [] [] = Ordering.eq
compare_segments [] (b ∷ bs) = let rest = compare_segments [] bs in decide_by (compare 0 b) rest
compare_segments (a ∷ as') [] = let rest = compare_segments as' [] in decide_by (compare a 0) rest
compare_segments (a ∷ as') (b ∷ bs) =
    let rest = compare_segments as' bs in decide_by (compare a b) rest

unfoldable pub compare_versions : Bytes → Bytes → Ordering
compare_versions a b = compare_segments (version_segments a) (version_segments b)

-- The operators; `=` and `==` are the same.
pub data Op : Type 0 where
  ge le gt lt eq : Op

-- The prefixes in the order of the source's loop, the bare "=" last; `none` is the error.
unfoldable pub parse_clause : Bytes → Option (Op × Bytes)
parse_clause clause = elim (strip_prefix (codes ">=") clause) [
  | some rest ↦ some (ge, trim_space rest)
  | none ↦ elim (strip_prefix (codes "<=") clause) [
    | some rest ↦ some (le, trim_space rest)
    | none ↦ elim (strip_prefix (codes ">") clause) [
      | some rest ↦ some (gt, trim_space rest)
      | none ↦ elim (strip_prefix (codes "<") clause) [
        | some rest ↦ some (lt, trim_space rest)
        | none ↦ elim (strip_prefix (codes "==") clause) [
          | some rest ↦ some (eq, trim_space rest)
          | none ↦ elim (strip_prefix (codes "=") clause) [
            | some rest ↦ some (eq, trim_space rest)
            | none ↦ none
          ]
        ]
      ]
    ]
  ]
]

abbrev pub op_holds : Op → Ordering → Bool
op_holds ge Ordering.lt = false
op_holds ge _ = true
op_holds gt Ordering.gt = true
op_holds gt _ = false
op_holds le Ordering.gt = false
op_holds le _ = true
op_holds lt Ordering.lt = true
op_holds lt _ = false
op_holds eq Ordering.eq = true
op_holds eq _ = false

unfoldable pub match_clause : Bytes → Bytes → Bool
match_clause clause version = elim (parse_clause clause) [
  | none ↦ false
  | some (op, ver) ↦ op_holds op (compare_versions version ver)
]

-- The loop of matchAndGroup over the clauses.
unfoldable pub match_clauses : List Bytes → Bytes → Bool
match_clauses [] version = true
match_clauses (c ∷ cs) version =
    let clause = trim_space c in
    let rest = match_clauses cs version in
    if is_empty clause then rest else if match_clause clause version then rest else false

unfoldable pub match_and_group : Bytes → Bytes → Bool
match_and_group group version = match_clauses (split b',' group) version

-- The loop of MatchVersionConstraint over the groups.
unfoldable pub match_groups : List Bytes → Bytes → Bool
match_groups [] version = false
match_groups (g ∷ gs) version =
    let group = trim_space g in
    let rest = match_groups gs version in
    if is_empty group then rest else if match_and_group group version then true else rest

unfoldable pub match_version_constraint : Bytes → Bytes → Bool
match_version_constraint constraint version =
    let trimmed = trim_space constraint in
    if is_empty trimmed then true else match_groups (split_pair b'|' b'|' trimmed) version

-- ValidateVersionConstraint: `true` is the nil error.
unfoldable pub validate_clauses : List Bytes → Bool
validate_clauses [] = true
validate_clauses (c ∷ cs) =
    let clause = trim_space c in
    let rest = validate_clauses cs in
    if is_empty clause then rest else elim (parse_clause clause) [ none ↦ false | some _ ↦ rest ]

unfoldable pub validate_groups : List Bytes → Bool
validate_groups [] = true
validate_groups (g ∷ gs) =
    let group = trim_space g in
    let rest = validate_groups gs in
    if is_empty group then rest else if validate_clauses (split b',' group) then rest else false

unfoldable pub validate_version_constraint : Bytes → Bool
validate_version_constraint constraint =
    let trimmed = trim_space constraint in
    if is_empty trimmed then true else validate_groups (split_pair b'|' b'|' trimmed)
