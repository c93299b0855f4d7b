-- ===== src/Agent/Commands.antt =====
-- What an agent does with the onetime commands that Heartbeat in internal/server/agent/handler.go
-- sends, and what the next heartbeat sends it.
use config_server.Prelude.{
  ◌≡◌, ◌≢◌, refl, ◌∙◌, Bool, true, false, not, ◌&&◌, Option, none, some, List, [], ◌∷◌, ◌++◌, Bytes,
  bytes_eq, bytes_eq_iff, bytes_eq_refl, ℤ, int_eq, int_lt, int_eq_iff, arith, if◌then◌else◌,
  Bool-cases, inl, inr,
}
use config_server.Prelude.Dict.{
  Dict, lookup, insert, erase, has_key, lookup-insert, lookup-erase, has_key-lookup,
}
use config_server.Model.{OnetimeCommand}
use config_server.Agent.{CommandDetail, removal}
use config_server.Agent.Onetime.{
  JsonObjects, onetime_content_hash, has_command, cancellation, cancellations,
  onetime_detail_with_generation, to_deliver, deliveries, command_of, onetime_updates,
}
use config_server.Agent.Delivery.{cancellations-quiet}

-- The agent's side: an expire time of -1 cancels the command, and of any other command the agent
-- keeps the hash of the content, which it reports as the version.
unfoldable pub apply_command : Dict ℤ → CommandDetail → Dict ℤ
apply_command m u =
    if int_eq u.expire_time removal
    then erase u.name m
    else insert u.name (onetime_content_hash u.detail) m

unfoldable pub apply_commands : Dict ℤ → List CommandDetail → Dict ℤ
apply_commands m [] = m
apply_commands m (u ∷ us) = apply_commands (apply_command m u) us

-- Rows of a table whose key is the name, with expire times that are no removal.
abbrev pub AreCommands : List OnetimeCommand → Type 0
AreCommands [] = Unit
AreCommands (oc ∷ ocs) =
    (has_command oc.name ocs ≡ false) × (oc.expire_time ≢ removal) × AreCommands ocs

apply_commands-append :
    (m : Dict ℤ) (us vs : List CommandDetail)
    → apply_commands m (us ++ vs) ≡ apply_commands (apply_commands m us) vs
unfolding apply_commands
apply_commands-append m [] vs = refl
apply_commands-append m (u ∷ us) vs = apply_commands-append (apply_command m u) us vs

lookup-apply_command :
    (name : Bytes) (m : Dict ℤ) (u : CommandDetail)
    → lookup name (apply_command m u) ≡ (
        if bytes_eq u.name name
        then (if int_eq u.expire_time removal then none else some (onetime_content_hash u.detail))
        else lookup name m)
unfolding apply_command
lookup-apply_command name m u =
    ground (
      arith,
      lookup-insert u.name name (onetime_content_hash u.detail) m,
      lookup-erase u.name name m,
    )

lookup-cancellations :
    (m idx : Dict ℤ) (name : Bytes) (ocs : List OnetimeCommand)
    → lookup name (apply_commands m (cancellations idx ocs))
      ≡ (if has_key name idx && not (has_command name ocs) then none else lookup name m)
unfolding apply_commands cancellations has_key
lookup-cancellations m [] name ocs = refl
lookup-cancellations m ((k, v) ∷ idx) name ocs = elim (Bool-cases (has_command k ocs)) [
  | inl s ↦ rw s (ground (arith, lookup-cancellations m idx name ocs, bytes_eq_iff k name))
  | inr s ↦ rw s (
      ground (
        arith,
        lookup-cancellations (apply_command m (cancellation k)) idx name ocs,
        lookup-apply_command name m (cancellation k),
        bytes_eq_iff k name,
        int_eq_iff removal removal,
      ))
]

abbrev or_else : Option ℤ → Option ℤ → Option ℤ
or_else none o = o
or_else (some v) o = some v

expired_later :
    (e now later : ℤ) → int_lt e now ≡ true → int_lt later now ≡ false → int_lt e later ≡ true
unfolding int_lt
expired_later e now later h k = ground arith

module _ (json : JsonObjects) where
  abbrev hash_of : OnetimeCommand → ℤ
  hash_of oc = onetime_content_hash (onetime_detail_with_generation json oc)

  -- The hash of what is sent for the name.
  sent_hash : ℤ → Bool → Dict ℤ → Bytes → List OnetimeCommand → Option ℤ
  sent_hash now full idx name [] = none
  sent_hash now full idx name (oc ∷ ocs) =
      if bytes_eq oc.name name && to_deliver json now full idx oc
      then some (hash_of oc)
      else sent_hash now full idx name ocs

  sent-named :
      (now : ℤ) (full : Bool) (idx : Dict ℤ) (name : Bytes) (ocs : List OnetimeCommand)
      → has_command name ocs ≡ false
      → sent_hash now full idx name ocs ≡ none
  unfolding has_command sent_hash
  sent-named now full idx name [] h = refl
  sent-named now full idx name (oc ∷ ocs) h = ground (arith, sent-named now full idx name ocs)

  lookup-deliveries :
      (now : ℤ) (full : Bool) (idx m : Dict ℤ) (name : Bytes) (ocs : List OnetimeCommand)
      → AreCommands ocs
      → lookup name (apply_commands m (deliveries json now full idx ocs))
        ≡ or_else (sent_hash now full idx name ocs) (lookup name m)
  unfolding apply_commands deliveries sent_hash
  lookup-deliveries now full idx m name [] h = refl
  lookup-deliveries now full idx m name (oc ∷ ocs) h =
      elim (Bool-cases (to_deliver json now full idx oc)) [
        | inl s ↦ rw s (
            ground (
              arith,
              lookup-deliveries now full idx (apply_command m (command_of json oc)) name ocs h.2,
              lookup-apply_command name m (command_of json oc),
              sent-named now full idx oc.name ocs h.0,
              bytes_eq_iff oc.name name,
              int_eq_iff oc.expire_time removal,
              h.1,
            ))
        | inr s ↦ rw s (ground (arith, lookup-deliveries now full idx m name ocs h.2))
      ]

  -- An update of an agent that has what the first heartbeat sent is not due at a later time.
  delivered_once :
      (now later : ℤ) (full : Bool) (idx idx' : Dict ℤ) (oc : OnetimeCommand)
      → int_lt later now ≡ false
      → lookup oc.name idx'
        ≡ (if to_deliver json now full idx oc then some (hash_of oc) else lookup oc.name idx)
      → to_deliver json later false idx' oc ≡ false
  unfolding to_deliver
  delivered_once now later full idx idx' oc order e =
      ground (arith, expired_later oc.expire_time now later, int_eq_iff (hash_of oc) (hash_of oc))

  has_command-tail :
      (oc : OnetimeCommand) (ocs : List OnetimeCommand) (name : Bytes)
      → has_command oc.name ocs ≡ false
      → has_command name ocs ≡ true
      → (has_command name (oc ∷ ocs) ≡ true) × (bytes_eq oc.name name ≡ false)
  unfolding has_command
  has_command-tail oc ocs name h n = ground (arith, bytes_eq_iff oc.name name)

  has_command-head :
      (oc : OnetimeCommand) (ocs : List OnetimeCommand) → has_command oc.name (oc ∷ ocs) ≡ true
  unfolding has_command
  has_command-head oc ocs = ground (arith, bytes_eq_refl oc.name)

  deliveries-once :
      (now later : ℤ) (full : Bool) (idx idx' : Dict ℤ) (ocs : List OnetimeCommand)
      → int_lt later now ≡ false
      → AreCommands ocs
      → ((name : Bytes)
          → has_command name ocs ≡ true
          → lookup name idx' ≡ or_else (sent_hash now full idx name ocs) (lookup name idx))
      → deliveries json later false idx' ocs ≡ []
  unfolding deliveries sent_hash
  deliveries-once now later full idx idx' [] order h agree = refl
  deliveries-once now later full idx idx' (oc ∷ ocs) order h agree =
      let here = agree oc.name (has_command-head oc ocs) in
      let quiet =
        delivered_once now later full idx idx' oc order
          (ground (arith, here, bytes_eq_refl oc.name, sent-named now full idx oc.name ocs h.0)) in
      rw quiet (
        deliveries-once now later full idx idx' ocs order h.2 (λ name n.
          let (known, other) = has_command-tail oc ocs name h.0 n in
          agree name known ∙ ground arith))

  -- A command is offered once: when an agent has taken what a heartbeat sends about onetime
  -- commands, dropping each command that is cancelled and keeping the content hash of each that is
  -- delivered, and reports what it then has, a heartbeat at that time or later with the same
  -- commands assigned sends it nothing about them, unless it asks for the full state. The assigned
  -- commands have different names and no expire time -1.
  pub onetime_updates_once :
      (now later : ℤ) (full_state : Bool) (agent_onetime : Dict ℤ) (ocs : List OnetimeCommand)
      → int_lt later now ≡ false
      → AreCommands ocs
      → onetime_updates json later false
          (apply_commands agent_onetime (onetime_updates json now full_state agent_onetime ocs))
          ocs
        ≡ []
  onetime_updates_once now later full idx ocs order h =
      let idx' = apply_commands idx (onetime_updates json now full idx ocs) in
      let reported : (name : Bytes)
          → lookup name idx'
            ≡ or_else (sent_hash now full idx name ocs)
                (if has_key name idx && not (has_command name ocs) then none else lookup name idx) =
        λ name.
          unfold onetime_updates in
          rw (apply_commands-append idx (cancellations idx ocs) (deliveries json now full idx ocs))
            (ground (
              arith,
              lookup-deliveries now full idx (apply_commands idx (cancellations idx ocs)) name ocs
                  h,
              lookup-cancellations idx idx name ocs,
            )) in
      let sent =
        deliveries-once now later full idx idx' ocs order h
          (λ name n. ground (arith, reported name)) in
      let gone = cancellations-quiet idx' ocs (λ name k. ground (
        arith,
        reported name,
        has_key-lookup name idx',
        has_key-lookup name idx,
        sent-named now full idx name ocs,
      )) in
      unfold onetime_updates in rw (gone, sent)
