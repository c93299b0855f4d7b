-- ===== src/Store/Rows.antt =====
-- The writes of internal/store/gormdb/gormdb.go that touch several tables. A transaction is one
-- step; rows of a table are read in the order in which they were created.
use config_server.Prelude.{
  ◌≡◌, refl, Bool, true, false, not, ◌&&◌, Option, none, some, List, [], ◌∷◌, ◌++◌, Bytes, bytes_eq,
  bytes_eq_iff, is_empty, any, keep, map, arith, if◌then◌else◌, Bool-cases, inl, inr, ap, sym,
}
use config_server.Model.{
  ConfigType, pipeline, instance_config, onetime, default_group_name, AgentGroup, AgentGroupTag,
  Config, OnetimeCommand, GroupConfigMapping, User, Role, RolePermission,
}
use config_server.Store.{Store, config_type_eq, in_set, mapped_names}
use config_server.Store.Groups.{in_set-add_name}

-- none is the error that the default group gives.
unfoldable pub delete_group : Bytes → Store → Option Store
delete_group name s =
    if bytes_eq name default_group_name
    then none
    else some (record s {
      groups = keep (λ (g : AgentGroup). not (bytes_eq g.name name)) s.groups;
      tags = keep (λ (t : AgentGroupTag). not (bytes_eq t.group_name name)) s.tags;
      mappings = keep (λ (m : GroupConfigMapping). not (bytes_eq m.group_name name)) s.mappings;
    })

abbrev pub of_group : Bytes → AgentGroupTag → AgentGroupTag
of_group name t = record t { group_name = name }

unfoldable pub set_group_tags : Bytes → List AgentGroupTag → Store → Store
set_group_tags name tags s = record s {
  tags =
      keep (λ (t : AgentGroupTag). not (bytes_eq t.group_name name)) s.tags
      ++ map (of_group name) tags;
}

unfoldable pub get_group_tags : Bytes → Store → List AgentGroupTag
get_group_tags name s = keep (λ (t : AgentGroupTag). bytes_eq t.group_name name) s.tags

abbrev pub same_mapping : GroupConfigMapping → GroupConfigMapping → Bool
same_mapping m n =
    bytes_eq m.group_name n.group_name
    && bytes_eq m.config_name n.config_name
    && config_type_eq m.config_type n.config_type

unfoldable pub add_group_config : GroupConfigMapping → Store → Store
add_group_config m s =
    if any (same_mapping m) s.mappings then s else record s { mappings = s.mappings ++ m ∷ [] }

unfoldable pub remove_group_config : GroupConfigMapping → Store → Store
remove_group_config m s = record s {
  mappings = keep (λ (n : GroupConfigMapping). not (same_mapping m n)) s.mappings;
}

abbrev maps_config : Bytes → ConfigType → GroupConfigMapping → Bool
maps_config name type m = bytes_eq m.config_name name && config_type_eq m.config_type type

abbrev without_config : Bytes → List Config → List Config
without_config name = keep (λ (c : Config). not (bytes_eq c.name name))

-- DeletePipelineConfig, DeleteInstanceConfig and DeleteOnetimeCommand.
unfoldable pub delete_config : ConfigType → Bytes → Store → Store
delete_config type name s =
    let mappings = keep (λ (m : GroupConfigMapping). not (maps_config name type m)) s.mappings in
    elim type [
      | pipeline ↦ record s { pipelines = without_config name s.pipelines; mappings = mappings }
      | instance_config ↦ record s {
        instances = without_config name s.instances;
        mappings = mappings;
      }
      | onetime ↦ record s {
        onetimes = keep (λ (c : OnetimeCommand). not (bytes_eq c.name name)) s.onetimes;
        mappings = mappings;
      }
    ]

abbrev pub clear_role : Bytes → User → User
clear_role name u = if bytes_eq u.role_name name then record u { role_name = [] } else u

pub delete_role : Bytes → Store → Store
delete_role name s = record s {
  users = map (clear_role name) s.users;
  permissions = keep (λ (p : RolePermission). not (bytes_eq p.role_name name)) s.permissions;
  roles = keep (λ (r : Role). not (bytes_eq r.name name)) s.roles;
}

pub any-keep-not {ℓ} :
    {A : Type ℓ} (p : A → Bool) (xs : List A) → any p (keep (λ x. not (p x)) xs) ≡ false
any-keep-not p [] = refl
any-keep-not p (x ∷ xs) = ground (arith, any-keep-not p xs)

any-none {ℓ} : {A : Type ℓ} (p : A → Bool) (xs : List A) → any p xs ≡ false → keep p xs ≡ []
any-none p [] h = refl
any-none p (x ∷ xs) h = ground (arith, any-none p xs)

-- Rows that a filter keeps are the same before and after one that drops none of them.
keep-keep {ℓ} :
    {A : Type ℓ} (p q : A → Bool) (xs : List A)
    → ((x : A) → p x ≡ true → q x ≡ true)
    → keep p (keep q xs) ≡ keep p xs
keep-keep p q [] h = refl
keep-keep p q (x ∷ xs) h = ground (arith, keep-keep p q xs h, h x)

keep-append {ℓ} :
    {A : Type ℓ} (p : A → Bool) (xs ys : List A) → keep p (xs ++ ys) ≡ keep p xs ++ keep p ys
keep-append p [] ys = refl
keep-append p (x ∷ xs) ys = ground (arith, keep-append p xs ys)

keep-of_group :
    (n m : Bytes) (tags : List AgentGroupTag)
    → keep (λ (t : AgentGroupTag). bytes_eq t.group_name m) (map (of_group n) tags)
      ≡ (if bytes_eq n m then map (of_group n) tags else [])
keep-of_group n m [] = ground arith
keep-of_group n m (t ∷ tags) = ground (arith, keep-of_group n m tags)

append-nil {ℓ} : {A : Type ℓ} (xs : List A) → xs ++ [] ≡ xs
append-nil [] = refl
append-nil (x ∷ xs) = ap (λ ys. x ∷ ys) (append-nil xs)

others-none :
    (n m : Bytes) (tags : List AgentGroupTag)
    → n ≡ m
    → keep
        (λ (t : AgentGroupTag). bytes_eq t.group_name m)
        (keep (λ (t : AgentGroupTag). not (bytes_eq t.group_name n)) tags)
      ≡ []
others-none n m tags e = rw e (
    any-none (λ (t : AgentGroupTag). bytes_eq t.group_name m)
      (keep (λ (t : AgentGroupTag). not (bytes_eq t.group_name m)) tags)
      (any-keep-not (λ (t : AgentGroupTag). bytes_eq t.group_name m) tags))

tags-others :
    (n m : Bytes) (tags : List AgentGroupTag)
    → keep
        (λ (t : AgentGroupTag). bytes_eq t.group_name m)
        (keep (λ (t : AgentGroupTag). not (bytes_eq t.group_name n)) tags)
      ≡ (if bytes_eq n m then [] else keep (λ (t : AgentGroupTag). bytes_eq t.group_name m) tags)
tags-others n m tags = elim (Bool-cases (bytes_eq n m)) [
  | inl e ↦ rw e (others-none n m tags (ground (arith, bytes_eq_iff n m)))
  | inr e ↦ rw e (
      keep-keep (λ (t : AgentGroupTag). bytes_eq t.group_name m)
        (λ (t : AgentGroupTag). not (bytes_eq t.group_name n)) tags
        (λ t h.
          ground
            (arith, bytes_eq_iff t.group_name n, bytes_eq_iff t.group_name m, bytes_eq_iff n m)))
]

deleted-tags :
    (n : Bytes) (s after : Store)
    → delete_group n s ≡ some after
    → keep (λ (t : AgentGroupTag). not (bytes_eq t.group_name n)) s.tags ≡ after.tags
unfolding delete_group
deleted-tags n s after h = ground arith

-- The tags that are set are the tags that are read, under the group's name, and the tags of the
-- other groups do not change.
pub get_group_tags-set_group_tags :
    (n m : Bytes) (tags : List AgentGroupTag) (s : Store)
    → get_group_tags m (set_group_tags n tags s)
      ≡ (if bytes_eq n m then map (of_group n) tags else get_group_tags m s)
unfolding get_group_tags set_group_tags
get_group_tags-set_group_tags n m tags s =
    rw
      (keep-append (λ (t : AgentGroupTag). bytes_eq t.group_name m)
        (keep (λ (t : AgentGroupTag). not (bytes_eq t.group_name n)) s.tags)
        (map (of_group n) tags))
      (rw (keep-of_group n m tags) (
        rw (tags-others n m s.tags) (elim (Bool-cases (bytes_eq n m)) [
          | inl e ↦ rw e refl
          | inr e ↦ rw e (append-nil (keep (λ (t : AgentGroupTag). bytes_eq t.group_name m) s.tags))
        ])))

mapped_names-none :
    (name : Bytes) (type : ConfigType) (groups : List Bytes) (ms : List GroupConfigMapping)
    → any (maps_config name type) ms ≡ false
    → in_set name (mapped_names type groups ms) ≡ false
unfolding mapped_names in_set
mapped_names-none name type groups [] h = refl
mapped_names-none name type groups (m ∷ ms) h = ground (
  arith,
  mapped_names-none name type groups ms,
  in_set-add_name name m.config_name (mapped_names type groups ms),
)

-- A config that is deleted is resolved for no agent: none of the groups that an agent can match
-- maps it any more.
pub delete_config-mapped_names :
    (type : ConfigType) (name : Bytes) (groups : List Bytes) (s : Store)
    → in_set name (mapped_names type groups (delete_config type name s).mappings) ≡ false
unfolding delete_config
delete_config-mapped_names pipeline name groups s =
    mapped_names-none name pipeline groups _ (any-keep-not (maps_config name pipeline) s.mappings)
delete_config-mapped_names instance_config name groups s =
    mapped_names-none name instance_config groups _
      (any-keep-not (maps_config name instance_config) s.mappings)
delete_config-mapped_names onetime name groups s =
    mapped_names-none name onetime groups _ (any-keep-not (maps_config name onetime) s.mappings)

-- Deleting a group succeeds for a group other than the default one only, and leaves no row of it
-- in the three tables and every tag of the other groups.
pub delete_group_lem :
    (n other : Bytes) (s after : Store)
    → delete_group n s ≡ some after
    → (bytes_eq n default_group_name ≡ false)
      × (any (λ (g : AgentGroup). bytes_eq g.name n) after.groups ≡ false)
      × (any (λ (m : GroupConfigMapping). bytes_eq m.group_name n) after.mappings ≡ false)
      × (get_group_tags other after ≡ (if bytes_eq n other then [] else get_group_tags other s))
unfolding delete_group get_group_tags
delete_group_lem n other s after h = elim (Bool-cases (bytes_eq n default_group_name)) [
  | inl e ↦ ground arith
  | inr e ↦ (
    e,
    ground (arith, any-keep-not (λ (g : AgentGroup). bytes_eq g.name n) s.groups),
    ground (arith, any-keep-not (λ (m : GroupConfigMapping). bytes_eq m.group_name n) s.mappings),
    rw (sym (deleted-tags n s after h)) (tags-others n other s.tags),
  )
]

clear_role-none :
    (name : Bytes) (users : List User)
    → is_empty name ≡ false
    → any (λ (u : User). bytes_eq u.role_name name) (map (clear_role name) users) ≡ false
clear_role-none name [] h = refl
clear_role-none name (u ∷ users) h =
    ground
      (arith, clear_role-none name users h, bytes_eq_iff [] name, bytes_eq_iff u.role_name name)

clear_role-usernames :
    (name : Bytes) (users : List User)
    → map (λ (u : User). u.username) (map (clear_role name) users)
      ≡ map (λ (u : User). u.username) users
clear_role-usernames name [] = refl
clear_role-usernames name (u ∷ users) = ground (arith, clear_role-usernames name users)

-- After a role is deleted no user has it and no permission is stored for it, unless it is the
-- empty name, and the users stay the same people in the same order.
delete_role_lem :
    (name : Bytes) (s : Store)
    → is_empty name ≡ false
    → (any (λ (u : User). bytes_eq u.role_name name) (delete_role name s).users ≡ false)
      × (any (λ (p : RolePermission). bytes_eq p.role_name name) (delete_role name s).permissions
          ≡ false)
      × (map (λ (u : User). u.username) (delete_role name s).users
          ≡ map (λ (u : User). u.username) s.users)
unfolding delete_role
delete_role_lem name s h = (
  clear_role-none name s.users h,
  any-keep-not (λ (p : RolePermission). bytes_eq p.role_name name) s.permissions,
  clear_role-usernames name s.users,
)
