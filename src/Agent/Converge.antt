-- ===== src/Agent/Converge.antt =====
-- What the agent has after it applied the updates of a heartbeat.
use config_server.Prelude.{
  ◌≡◌, ◌≢◌, refl, ◌∙◌, Bool, true, false, not, ◌&&◌, Option, none, some, List, [], ◌∷◌, ◌++◌, Bytes,
  bytes_eq, bytes_eq_iff, bytes_eq_refl, ℤ, int_eq, int_eq_iff, is_empty, arith, if◌then◌else◌,
  Bool-cases, Option-cases, inl, inr,
}
use config_server.Prelude.Dict.{
  Dict, lookup, insert, erase, has_key, lookup-insert, lookup-erase, has_key-lookup,
}
use config_server.Model.{Config}
use config_server.Agent.{ConfigDetail, removal}
use config_server.Agent.Diff.{
  to_send, config_updates, is_served, removals, config_diff, detail_of, removal_of, same_version,
}

-- The agent's side of the protocol: a version of -1 removes the config, any other replaces it.
unfoldable pub apply_update : Dict ℤ → ConfigDetail → Dict ℤ
apply_update m u = if int_eq u.version removal then erase u.name m else insert u.name u.version m

unfoldable pub apply_updates : Dict ℤ → List ConfigDetail → Dict ℤ
apply_updates m [] = m
apply_updates m (u ∷ us) = apply_updates (apply_update m u) us

-- The version that the server has for the name: that of the config with content.
pub served_version : Bytes → List Config → Option ℤ
served_version name [] = none
served_version name (c ∷ cs) =
    if bytes_eq c.name name && not (is_empty c.detail)
    then some c.version
    else served_version name cs

unfoldable pub has_name : Bytes → List Config → Bool
has_name name [] = false
has_name name (c ∷ cs) = if bytes_eq c.name name then true else has_name name cs

-- Rows of a table whose key is the name, with versions that are no removal.
abbrev pub IsTable : List Config → Type 0
IsTable [] = Unit
IsTable (c ∷ cs) = (has_name c.name cs ≡ false) × (c.version ≢ removal) × IsTable cs

apply_updates-append :
    (m : Dict ℤ) (us vs : List ConfigDetail)
    → apply_updates m (us ++ vs) ≡ apply_updates (apply_updates m us) vs
unfolding apply_updates
apply_updates-append m [] vs = refl
apply_updates-append m (u ∷ us) vs = apply_updates-append (apply_update m u) us vs

lookup-apply_update :
    (name : Bytes) (m : Dict ℤ) (u : ConfigDetail)
    → lookup name (apply_update m u) ≡ (
        if bytes_eq u.name name
        then (if int_eq u.version removal then none else some u.version)
        else lookup name m)
unfolding apply_update
lookup-apply_update name m u =
    ground (arith, lookup-insert u.name name u.version m, lookup-erase u.name name m)

served-named :
    (name : Bytes) (cs : List Config) → has_name name cs ≡ false → served_version name cs ≡ none
unfolding has_name served_version
served-named name [] h = refl
served-named name (c ∷ cs) h = ground (arith, served-named name cs)

-- The version that the loop over the server's configs sends for the name.
sent_version : Bool → Dict ℤ → Bytes → List Config → Option ℤ
sent_version full idx name [] = none
sent_version full idx name (c ∷ cs) =
    if bytes_eq c.name name && to_send full idx c
    then some c.version
    else sent_version full idx name cs

sent-named :
    (full : Bool) (idx : Dict ℤ) (name : Bytes) (cs : List Config)
    → has_name name cs ≡ false
    → sent_version full idx name cs ≡ none
unfolding has_name sent_version
sent-named full idx name [] h = refl
sent-named full idx name (c ∷ cs) h = ground (arith, sent-named full idx name cs)

abbrev or_else : Option ℤ → Option ℤ → Option ℤ
or_else none o = o
or_else (some v) o = some v

lookup-config_updates :
    (full : Bool) (idx m : Dict ℤ) (name : Bytes) (cs : List Config)
    → IsTable cs
    → lookup name (apply_updates m (config_updates full idx cs))
      ≡ or_else (sent_version full idx name cs) (lookup name m)
unfolding apply_updates config_updates sent_version
lookup-config_updates full idx m name [] h = refl
lookup-config_updates full idx m name (c ∷ cs) h = elim (Bool-cases (to_send full idx c)) [
  | inl s ↦ rw s (
      ground (
        arith,
        lookup-config_updates full idx (apply_update m (detail_of c)) name cs h.2,
        lookup-apply_update name m (detail_of c),
        sent-named full idx c.name cs h.0,
        bytes_eq_iff c.name name,
        int_eq_iff c.version removal,
        h.1,
      ))
  | inr s ↦ rw s (ground (arith, lookup-config_updates full idx m name cs h.2))
]

lookup-removals :
    (m idx : Dict ℤ) (name : Bytes) (cs : List Config)
    → lookup name (apply_updates m (removals idx cs))
      ≡ (if has_key name idx && not (is_served name cs) then none else lookup name m)
unfolding apply_updates removals has_key
lookup-removals m [] name cs = refl
lookup-removals m ((k, v) ∷ idx) name cs = elim (Bool-cases (is_served k cs)) [
  | inl s ↦ rw s (ground (arith, lookup-removals m idx name cs, bytes_eq_iff k name))
  | inr s ↦ rw s (
      ground (
        arith,
        lookup-removals (apply_update m (removal_of k)) idx name cs,
        lookup-apply_update name m (removal_of k),
        bytes_eq_iff k name,
        int_eq_iff removal removal,
      ))
]

abbrev is_some : Option ℤ → Bool
is_some none = false
is_some (some _) = true

is_served-served_version :
    (name : Bytes) (cs : List Config) → is_served name cs ≡ is_some (served_version name cs)
unfolding is_served served_version
is_served-served_version name [] = refl
is_served-served_version name (c ∷ cs) = ground (arith, is_served-served_version name cs)

-- What is sent is what is served, but for a version that the agent has and no full state is asked.
sent-served :
    (full : Bool) (idx : Dict ℤ) (name : Bytes) (cs : List Config)
    → IsTable cs
    → sent_version full idx name cs ≡ elim (served_version name cs) [
      | none ↦ none
      | some v ↦ if not full && same_version (lookup name idx) v then none else some v
    ]
unfolding sent_version served_version to_send
sent-served full idx name [] h = refl
sent-served full idx name (c ∷ cs) h = ground (
  arith,
  bytes_eq_iff c.name name,
  sent-served full idx name cs h.2,
  sent-named full idx c.name cs h.0,
)

-- Sent or not, the agent ends with the version.
ends_with :
    (full : Bool) (o : Option ℤ) (v : ℤ)
    → or_else (if not full && same_version o v then none else some v) o ≡ some v
ends_with full none v = ground arith
ends_with full (some w) v = ground (arith, int_eq_iff w v)

-- Heartbeat's comparison, for the pipeline as for the instance configs: an agent that applies the
-- updates has, under every name, exactly the version of the config with content that it is
-- assigned, and no config where there is none. So the full-state flag changes what is sent and not
-- what the agent ends with. The assigned configs have different names and no version -1.
pub config_diff-converges :
    (full_state : Bool) (agent_configs : Dict ℤ) (cs : List Config) (name : Bytes)
    → IsTable cs
    → lookup name (apply_updates agent_configs (config_diff full_state agent_configs cs))
      ≡ served_version name cs
unfolding config_diff
config_diff-converges full idx cs name h =
    let us = config_updates full idx cs in
    let gone = lookup-removals (apply_updates idx us) idx name cs in
    let sent = lookup-config_updates full idx idx name cs h in
    let served = is_served-served_version name cs in
    rw (apply_updates-append idx us (removals idx cs))
      (elim (Option-cases (served_version name cs)) [
        | inl e ↦
            ground
              (arith, gone, sent, sent-served full idx name cs h, served, has_key-lookup name idx)
        | inr (v, e) ↦ ground (
          arith,
          gone,
          sent,
          sent-served full idx name cs h,
          served,
          ends_with full (lookup name idx) v,
        )
      ])

served-tail :
    (c : Config) (cs : List Config) (name : Bytes)
    → has_name c.name cs ≡ false
    → has_name name cs ≡ true
    → (has_name name (c ∷ cs) ≡ true) × (served_version name (c ∷ cs) ≡ served_version name cs)
unfolding has_name served_version
served-tail c cs name h n = ground (arith, bytes_eq_iff c.name name)

served-head :
    (c : Config) (cs : List Config)
    → (has_name c.name (c ∷ cs) ≡ true)
      × (served_version c.name (c ∷ cs)
          ≡ (if is_empty c.detail then served_version c.name cs else some c.version))
unfolding has_name served_version
served-head c cs = ground (arith, bytes_eq_refl c.name)

config_updates-quiet :
    (idx : Dict ℤ) (cs : List Config)
    → IsTable cs
    → ((name : Bytes) → has_name name cs ≡ true → lookup name idx ≡ served_version name cs)
    → config_updates false idx cs ≡ []
unfolding config_updates to_send
config_updates-quiet idx [] h agree = refl
config_updates-quiet idx (c ∷ cs) h agree =
    let (named, version) = served-head c cs in
    ground (
      arith,
      version,
      agree c.name named,
      int_eq_iff c.version c.version,
      config_updates-quiet idx cs h.2
          (λ name n. let (n', e) = served-tail c cs name h.0 n in agree name n' ∙ e),
    )

removals-quiet :
    (m : Dict ℤ) (cs : List Config)
    → ((name : Bytes) → has_key name m ≡ true → is_served name cs ≡ true)
    → removals m cs ≡ []
unfolding removals has_key
removals-quiet [] cs agree = refl
removals-quiet ((k, v) ∷ m) cs agree = ground (
  arith,
  bytes_eq_refl k,
  agree k,
  removals-quiet m cs (λ name n. agree name (ground (arith, n))),
)

-- Once an agent has applied the updates of a heartbeat and reports what it has, the next
-- heartbeat, with the same configs assigned and no full state asked for, sends no update of a
-- config and no removal. The assigned configs have different names and no version -1.
pub config_diff-settles :
    (full_state : Bool) (agent_configs : Dict ℤ) (cs : List Config)
    → IsTable cs
    → config_diff false (apply_updates agent_configs (config_diff full_state agent_configs cs)) cs
      ≡ []
config_diff-settles full idx cs h =
    let idx' = apply_updates idx (config_diff full idx cs) in
    let agree : (name : Bytes) → lookup name idx' ≡ served_version name cs =
      λ name. config_diff-converges full idx cs name h in
    let sent = config_updates-quiet idx' cs h (λ name n. agree name) in
    let gone = removals-quiet idx' cs (λ name k.
      ground (arith, agree name, has_key-lookup name idx', is_served-served_version name cs)) in
    unfold config_diff in rw (sent, gone)
