-- ===== src/Version/Syntax.antt =====
-- The documented syntax of constraints as data, its text, and its meaning.
use config_server.Prelude.{
  ◌≡◌, refl, ap, ◌∙◌, Bool, true, false, some, List, [], ◌∷◌, ◌++◌, Bytes, codes, arith, any, all,
  All, is_empty, if◌then◌else◌,
}
use config_server.Strings.{trim_space, push, split, split_pair, strip_prefix}
use config_server.Strings.Laws.{
  starts_solid, ends_solid, lacks, starts_solid-append, ends_solid-append, lacks-append,
  trim_space-solid, trim_space-space, trim_space-append_space, split-append, split-lacks,
  split_pair-append, split_pair-lacks,
}
use config_server.Version.{
  Op, ge, le, gt, lt, eq, op_holds, compare_versions, parse_clause, match_clause, match_clauses,
  match_and_group, match_groups, match_version_constraint,
}

pub record Clause : Type 0 where
  pub op : Op
  pub version : Bytes

-- The version text of a clause: not empty, with no white space at its ends, no comma and no bar.
pub record IsClause (c : Clause) : Type 0 where
  pub starts : starts_solid c.version ≡ true
  pub ends : ends_solid c.version ≡ true
  pub no_comma : lacks b',' c.version ≡ true
  pub no_bar : lacks b'|' c.version ≡ true

abbrev NonEmpty {ℓ} : {A : Type ℓ} → List A → Type 0
NonEmpty xs = is_empty xs ≡ false

abbrev IsGroup : List Clause → Type 0
IsGroup cs = NonEmpty cs × All IsClause cs

abbrev IsConstraint : List (List Clause) → Type 0
IsConstraint gs = NonEmpty gs × All IsGroup gs

abbrev op_text : Op → Bytes
op_text ge = codes ">="
op_text le = codes "<="
op_text gt = codes ">"
op_text lt = codes "<"
op_text eq = codes "="

-- "<op> <version>", clauses joined by ", ", groups joined by " || ".
abbrev clause_text : Clause → Bytes
clause_text c = op_text c.op ++ 32 ∷ c.version

abbrev group_text : List Clause → Bytes
group_text [] = []
group_text (c ∷ []) = clause_text c
group_text (c ∷ d ∷ cs) = clause_text c ++ b',' ∷ 32 ∷ group_text (d ∷ cs)

abbrev pub constraint_text : List (List Clause) → Bytes
constraint_text [] = []
constraint_text (g ∷ []) = group_text g
constraint_text (g ∷ h ∷ gs) =
    (group_text g ++ 32 ∷ []) ++ b'|' ∷ b'|' ∷ 32 ∷ constraint_text (h ∷ gs)

abbrev clause_holds : Bytes → Clause → Bool
clause_holds version c = op_holds c.op (compare_versions version c.version)

-- Some group has all its clauses hold.
abbrev pub constraint_holds : Bytes → List (List Clause) → Bool
constraint_holds version gs = any (all (clause_holds version)) gs

clause_text-starts : (c : Clause) → starts_solid (clause_text c) ≡ true
clause_text-starts c = op_starts c.op c.version
  where
    op_starts : (op : Op) (v : Bytes) → starts_solid (op_text op ++ 32 ∷ v) ≡ true
    op_starts ge v = refl
    op_starts _ v = refl

clause_text-ends : (c : Clause) → IsClause c → ends_solid (clause_text c) ≡ true
clause_text-ends c h =
    ends_solid-append (op_text c.op) (32 ∷ c.version) (ends_solid-append (32 ∷ []) c.version h.ends)

op_text-lacks_comma : (op : Op) → lacks b',' (op_text op) ≡ true
op_text-lacks_comma ge = refl
op_text-lacks_comma _ = refl

op_text-lacks_bar : (op : Op) → lacks b'|' (op_text op) ≡ true
op_text-lacks_bar ge = refl
op_text-lacks_bar _ = refl

clause_text-lacks_comma : (c : Clause) → IsClause c → lacks b',' (clause_text c) ≡ true
clause_text-lacks_comma c h =
    lacks-append b',' (op_text c.op) (32 ∷ c.version) (op_text-lacks_comma c.op) h.no_comma

clause_text-lacks_bar : (c : Clause) → IsClause c → lacks b'|' (clause_text c) ≡ true
clause_text-lacks_bar c h =
    lacks-append b'|' (op_text c.op) (32 ∷ c.version) (op_text-lacks_bar c.op) h.no_bar

-- The parser gives back the operator and the version.
parse_clause-clause_text :
    (c : Clause) → IsClause c → parse_clause (clause_text c) ≡ some (c.op, c.version)
unfolding parse_clause strip_prefix
parse_clause-clause_text c h =
    by_op c.op c.version (trim_space-space c.version ∙ trim_space-solid c.version h.starts h.ends)
  where
    by_op :
        (op : Op) (v : Bytes)
        → trim_space (32 ∷ v) ≡ v
        → parse_clause (op_text op ++ 32 ∷ v) ≡ some (op, v)
    by_op ge v e = ap (λ t. some (ge, t)) e
    by_op le v e = ap (λ t. some (le, t)) e
    by_op gt v e = ap (λ t. some (gt, t)) e
    by_op lt v e = ap (λ t. some (lt, t)) e
    by_op eq v e = ap (λ t. some (eq, t)) e

match_clause-clause_text :
    (version : Bytes) (c : Clause)
    → IsClause c
    → match_clause (clause_text c) version ≡ clause_holds version c
match_clause-clause_text version c h =
    unfold match_clause in rw (parse_clause-clause_text c h, match_clause)

not_empty : (s : Bytes) → starts_solid s ≡ true → is_empty s ≡ false
not_empty [] h = cc
not_empty (c ∷ s) h = refl

-- A leading space of the first part makes no difference to the loop over the clauses.
match_clauses-push :
    (ws : List Bytes) (version : Bytes)
    → match_clauses (push 32 ws) version ≡ match_clauses ws version
unfolding match_clauses
match_clauses-push [] version = unfold trim_space in refl
match_clauses-push (w ∷ ws) version = rw (trim_space-space w)

match_clauses-cons :
    (c : Clause) (ws : List Bytes) (version : Bytes)
    → IsClause c
    → match_clauses (clause_text c ∷ ws) version
      ≡ (if clause_holds version c then match_clauses ws version else false)
match_clauses-cons c ws version h =
    unfold match_clauses in
    simp (
      trim_space-solid (clause_text c) (clause_text-starts c) (clause_text-ends c h),
      match_clause-clause_text version c h,
      not_empty (clause_text c) (clause_text-starts c),
    )

match_clauses-nil : (version : Bytes) → match_clauses [] version ≡ true
unfolding match_clauses
match_clauses-nil version = refl

split-space : (s : Bytes) → split b',' (32 ∷ s) ≡ push 32 (split b',' s)
unfolding split
split-space s = refl

-- The loop over the clauses of a group's text finds whether all of them hold.
match_clauses-split :
    (version : Bytes) (c : Clause) (cs : List Clause)
    → IsClause c
    → All IsClause cs
    → match_clauses (split b',' (group_text (c ∷ cs))) version ≡ all (clause_holds version) (c ∷ cs)
match_clauses-split version c [] h hs =
    rw (split-lacks b',' (clause_text c) (clause_text-lacks_comma c h))
      (match_clauses-cons c [] version h ∙ ground (arith, match_clauses-nil version))
match_clauses-split version c (d ∷ cs) h hs =
    let more = group_text (d ∷ cs) in
    rw (split-append b',' (clause_text c) (32 ∷ more) (clause_text-lacks_comma c h)) (
      match_clauses-cons c (split b',' (32 ∷ more)) version h
      ∙ ground (
        arith,
        split-space more,
        match_clauses-push (split b',' more) version,
        match_clauses-split version d cs hs.0 hs.1,
      ))

match_and_group-group_text :
    (version : Bytes) (g : List Clause)
    → IsGroup g
    → match_and_group (group_text g) version ≡ all (clause_holds version) g
unfolding match_and_group
match_and_group-group_text version [] h = cc (h.0)
match_and_group-group_text version (c ∷ cs) h = match_clauses-split version c cs h.1.0 h.1.1

group_text-starts : (g : List Clause) → IsGroup g → starts_solid (group_text g) ≡ true
group_text-starts [] h = cc (h.0)
group_text-starts (c ∷ []) h = clause_text-starts c
group_text-starts (c ∷ d ∷ cs) h =
    starts_solid-append (clause_text c) (b',' ∷ 32 ∷ group_text (d ∷ cs)) (clause_text-starts c)

group_text-ends : (g : List Clause) → IsGroup g → ends_solid (group_text g) ≡ true
group_text-ends [] h = cc (h.0)
group_text-ends (c ∷ []) h = clause_text-ends c h.1.0
group_text-ends (c ∷ d ∷ cs) h =
    let more = group_text (d ∷ cs) in
    ends_solid-append (clause_text c) (b',' ∷ 32 ∷ more)
      (ends_solid-append (b',' ∷ 32 ∷ []) more (group_text-ends (d ∷ cs) (refl, h.1.1)))

group_text-lacks_bar : (g : List Clause) → All IsClause g → lacks b'|' (group_text g) ≡ true
group_text-lacks_bar [] h = refl
group_text-lacks_bar (c ∷ []) h = clause_text-lacks_bar c h.0
group_text-lacks_bar (c ∷ d ∷ cs) h =
    lacks-append b'|' (clause_text c) (b',' ∷ 32 ∷ group_text (d ∷ cs))
      (clause_text-lacks_bar c h.0) (group_text-lacks_bar (d ∷ cs) h.1)

match_groups-nil : (version : Bytes) → match_groups [] version ≡ false
unfolding match_groups
match_groups-nil version = refl

match_groups-push :
    (ws : List Bytes) (version : Bytes)
    → match_groups (push 32 ws) version ≡ match_groups ws version
unfolding match_groups
match_groups-push [] version = unfold trim_space in refl
match_groups-push (w ∷ ws) version = rw (trim_space-space w)

-- A part that trims to the text of a group.
match_groups-cons :
    (w : Bytes) (ws : List Bytes) (g : List Clause) (version : Bytes)
    → IsGroup g
    → trim_space w ≡ group_text g
    → match_groups (w ∷ ws) version
      ≡ (if all (clause_holds version) g then true else match_groups ws version)
match_groups-cons w ws g version h e =
    unfold match_groups in
    simp
      (e, match_and_group-group_text version g h, not_empty (group_text g) (group_text-starts g h))

split_pair-space : (s : Bytes) → split_pair b'|' b'|' (32 ∷ s) ≡ push 32 (split_pair b'|' b'|' s)
unfolding split_pair
split_pair-space [] = refl
split_pair-space (c ∷ s) = refl

match_groups-split :
    (version : Bytes) (g : List Clause) (gs : List (List Clause))
    → IsGroup g
    → All IsGroup gs
    → match_groups (split_pair b'|' b'|' (constraint_text (g ∷ gs))) version
      ≡ constraint_holds version (g ∷ gs)
match_groups-split version g [] h hs =
    rw (split_pair-lacks b'|' b'|' (group_text g) (group_text-lacks_bar g h.1)) (
      match_groups-cons (group_text g) [] g version h
        (trim_space-solid (group_text g) (group_text-starts g h) (group_text-ends g h))
      ∙ ground (arith, match_groups-nil version))
match_groups-split version g (g' ∷ gs) h hs =
    let more = constraint_text (g' ∷ gs) in
    let part = group_text g ++ 32 ∷ [] in
    rw
      (split_pair-append b'|' b'|' part (32 ∷ more)
        (lacks-append b'|' (group_text g) (32 ∷ []) (group_text-lacks_bar g h.1) refl))
      (match_groups-cons part (split_pair b'|' b'|' (32 ∷ more)) g version h
          (trim_space-append_space (group_text g) (group_text-starts g h) (group_text-ends g h))
        ∙ ground (
          arith,
          split_pair-space more,
          match_groups-push (split_pair b'|' b'|' more) version,
          match_groups-split version g' gs hs.0 hs.1,
        ))

constraint_text-starts :
    (g : List Clause) (gs : List (List Clause))
    → IsGroup g
    → starts_solid (constraint_text (g ∷ gs)) ≡ true
constraint_text-starts g [] h = group_text-starts g h
constraint_text-starts g (g' ∷ gs) h =
    starts_solid-append (group_text g ++ 32 ∷ []) _
      (starts_solid-append (group_text g) (32 ∷ []) (group_text-starts g h))

constraint_text-ends :
    (g : List Clause) (gs : List (List Clause))
    → IsGroup g
    → All IsGroup gs
    → ends_solid (constraint_text (g ∷ gs)) ≡ true
constraint_text-ends g [] h hs = group_text-ends g h
constraint_text-ends g (g' ∷ gs) h hs =
    let more = constraint_text (g' ∷ gs) in
    ends_solid-append (group_text g ++ 32 ∷ []) (b'|' ∷ b'|' ∷ 32 ∷ more)
      (ends_solid-append (b'|' ∷ b'|' ∷ 32 ∷ []) more (constraint_text-ends g' gs hs.0 hs.1))

-- MatchVersionConstraint on the text of a constraint, groups of clauses "<op> <version>" joined by
-- ", " and " || ": it is true exactly if some group has all its clauses hold, a clause holding if
-- its operator allows the result of compareVersions of the agent's version with the clause's.
-- The constraint has at least one group and each group at least one clause; the version of a clause
-- is not empty, starts and ends with a printable ASCII byte that is no space, and has no comma
-- and no bar.
pub match_version_constraint-constraint_text :
    (version : Bytes) (gs : List (List Clause))
    → IsConstraint gs
    → match_version_constraint (constraint_text gs) version ≡ constraint_holds version gs
match_version_constraint-constraint_text version [] h = cc (h.0)
match_version_constraint-constraint_text version (g ∷ gs) h =
    let starts = constraint_text-starts g gs h.1.0 in
    let text = constraint_text (g ∷ gs) in
    unfold match_version_constraint in
    rw (trim_space-solid text starts (constraint_text-ends g gs h.1.0 h.1.1))
      (rw (not_empty text starts) (match_groups-split version g gs h.1.0 h.1.1))
