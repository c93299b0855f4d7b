-- ===== src/Version/Tests.antt =====
-- internal/model/semver.go on the examples of its documentation, and the theorems on it.
use Prim.Native.Nat.{Ordering}
use config_server.Prelude.{◌≡◌, ◌≢◌, ◌↔◌, refl, true, false, codes, List, [], ◌∷◌, arith}
use config_server.Strings.{trim_space, strip_prefix, split, split_pair, atoi}
use config_server.Version.{
  match_version_constraint, match_groups, match_and_group, match_clauses, match_clause,
  parse_clause, compare_versions, compare_segments, version_segments, parse_segments, cut_label, ge,
  lt,
}
use config_server.Version.Syntax.{
  Clause, constraint_text, constraint_holds, match_version_constraint-constraint_text,
}
use config_server.Version.Order.{Earlier, SameSegments, compare_versions_decides}

doc_examples :
    (match_version_constraint (codes "") (codes "1.2.3") ≡ true)
    × (match_version_constraint (codes ">= 1.2.0") (codes "1.2.3") ≡ true)
    × (match_version_constraint (codes ">= 1.2.0, < 2.0.0") (codes "2.0.0") ≡ false)
    × (match_version_constraint (codes ">= 1.0.0, < 2.0.0 || >= 3.0.0") (codes "3.1.0") ≡ true)
unfolding match_version_constraint match_groups match_and_group match_clauses match_clause
    parse_clause compare_versions compare_segments version_segments parse_segments cut_label
    trim_space strip_prefix split split_pair atoi
doc_examples = (refl, refl, refl, refl)

abbrev between : List (List Clause)
between =
    (record { op = ge; version = codes "1.2" } ∷ record { op = lt; version = codes "2.0.0" } ∷ [])
    ∷ []

match_version_constraint-constraint_text_example :
    match_version_constraint (constraint_text between) (codes "1.10.0")
    ≡ constraint_holds (codes "1.10.0") between
match_version_constraint-constraint_text_example =
    match_version_constraint-constraint_text (codes "1.10.0") between (
      refl,
      (
        (
          refl,
          (
            record { starts = refl; ends = refl; no_comma = refl; no_bar = refl },
            (record { starts = refl; ends = refl; no_comma = refl; no_bar = refl }, tt),
          ),
        ),
        tt,
      ),
    )

compare_versions_decides_example :
    ((compare_versions (codes "1.2.0-rc") (codes "1.10") ≡ Ordering.lt)
      ↔ Earlier (version_segments (codes "1.2.0-rc")) (version_segments (codes "1.10")))
    × ((compare_versions (codes "1.2.0-rc") (codes "1.10") ≡ Ordering.gt)
        ↔ Earlier (version_segments (codes "1.10")) (version_segments (codes "1.2.0-rc")))
    × ((compare_versions (codes "1.2.0-rc") (codes "1.10") ≡ Ordering.eq)
        ↔ SameSegments (version_segments (codes "1.2.0-rc")) (version_segments (codes "1.10")))
compare_versions_decides_example = compare_versions_decides (codes "1.2.0-rc") (codes "1.10")

older : compare_versions (codes "1.2") (codes "1.10") ≡ Ordering.lt
unfolding compare_versions compare_segments version_segments parse_segments split strip_prefix atoi
    cut_label
older = refl

newer : compare_versions (codes "1.10") (codes "2.0") ≡ Ordering.lt
unfolding compare_versions compare_segments version_segments parse_segments split strip_prefix atoi
    cut_label
newer = refl

lt_not_gt : Ordering.lt ≢ Ordering.gt
lt_not_gt e = ground arith
