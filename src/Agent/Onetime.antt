-- ===== src/Agent/Onetime.antt =====
-- The onetime commands of Heartbeat. encoding/json on objects is a parameter.
use Prim.Native.Nat.{bit_xor}
use config_server.Prelude.{
  ℕ, ◌*◌, ◌%◌, ◌^◌, Bool, true, false, not, ◌&&◌, Option, none, some, List, [], ◌∷◌, ◌++◌, Bytes,
  bytes_eq, codes, ℤ, pos, negsuc, int_lt, if◌then◌else◌,
}
use config_server.Prelude.Dict.{Dict, lookup, insert}
use config_server.Strings.{format_int}
use config_server.Model.{OnetimeCommand}
use config_server.Agent.{CommandDetail, removal}
use config_server.Agent.Diff.{same_version}

-- Decoding a text into map[string]interface{}, `none` for an error or a null; the conversion of a
-- value to such a map and back; json.Number; encoding.
pub record JsonObjects : Type 1 where
  pub Value : Type 0
  pub decode_object : Bytes → Option (Dict Value)
  pub encode_object : Dict Value → Option Bytes
  pub as_object : Value → Option (Dict Value)
  pub of_object : Dict Value → Value
  pub number : Bytes → Value

abbrev pub onetime_generation_key : Bytes
onetime_generation_key = codes "__onetime_generation__"

abbrev or_detail : Option Bytes → Bytes → Bytes
or_detail none detail = detail
or_detail (some out) detail = out

-- FNV-1a of 64 bits.
unfoldable pub fnv64a : ℕ → Bytes → ℕ
fnv64a h [] = h
fnv64a h (b ∷ s) = fnv64a ((bit_xor h b * 1099511628211) % 2 ^ 64) s

-- The hash without its highest bit, as an int64.
unfoldable pub onetime_content_hash : Bytes → ℤ
onetime_content_hash detail = pos (fnv64a 14695981039346656037 detail % 2 ^ 63)

unfoldable pub has_command : Bytes → List OnetimeCommand → Bool
has_command name [] = false
has_command name (oc ∷ ocs) = if bytes_eq oc.name name then true else has_command name ocs

abbrev pub cancellation : Bytes → CommandDetail
cancellation name = record { name = name; detail = []; expire_time = removal }

-- The loop over the commands that the agent reports.
unfoldable pub cancellations : Dict ℤ → List OnetimeCommand → List CommandDetail
cancellations [] ocs = []
cancellations ((name, v) ∷ m) ocs =
    let rest = cancellations m ocs in
    if has_command name ocs then rest else cancellation name ∷ rest

-- The delivery deadline has passed.
abbrev pub is_expired : ℤ → OnetimeCommand → Bool
is_expired now oc = int_lt (pos 0) oc.expire_time && int_lt oc.expire_time now

module _ (json : JsonObjects) where
  open json use {Value, decode_object, encode_object, as_object, of_object, number}

  -- root["global"] where that is an object, else an empty one.
  abbrev pub global_of : Option Value → Dict Value
  global_of none = []
  global_of (some v) = elim (as_object v) [ none ↦ [] | some m ↦ m ]

  unfoldable pub inject_generation : ℕ → Dict Value → Dict Value
  inject_generation gen root =
      let global = global_of (lookup (codes "global") root) in
      insert (codes "global")
        (of_object (insert onetime_generation_key (number (format_int gen)) global)) root

  -- A creation time at or before 1970 gives no generation.
  unfoldable pub with_generation : ℤ → Bytes → Bytes
  with_generation (negsuc n) detail = detail
  with_generation (pos gen) detail =
      if int_lt (pos 0) (pos gen)
      then elim (decode_object detail) [
        | none ↦ detail
        | some root ↦ or_detail (encode_object (inject_generation gen root)) detail
      ]
      else detail

  unfoldable pub onetime_detail_with_generation : OnetimeCommand → Bytes
  onetime_detail_with_generation oc = with_generation oc.created_at oc.detail

  -- The command is offered: its deadline is not passed, and the agent does not report this content,
  -- or it asks for the full state.
  unfoldable pub to_deliver : ℤ → Bool → Dict ℤ → OnetimeCommand → Bool
  to_deliver now full_state agent_onetime oc =
      not (is_expired now oc)
      && not (
          not full_state
          && same_version (lookup oc.name agent_onetime)
              (onetime_content_hash (onetime_detail_with_generation oc)))

  abbrev pub command_of : OnetimeCommand → CommandDetail
  command_of oc = record {
    name = oc.name;
    detail = onetime_detail_with_generation oc;
    expire_time = oc.expire_time;
  }

  unfoldable pub deliveries : ℤ → Bool → Dict ℤ → List OnetimeCommand → List CommandDetail
  deliveries now full_state agent_onetime [] = []
  deliveries now full_state agent_onetime (oc ∷ ocs) =
      let rest = deliveries now full_state agent_onetime ocs in
      if to_deliver now full_state agent_onetime oc then command_of oc ∷ rest else rest

  unfoldable pub onetime_updates : ℤ → Bool → Dict ℤ → List OnetimeCommand → List CommandDetail
  onetime_updates now full_state agent_onetime ocs =
      cancellations agent_onetime ocs ++ deliveries now full_state agent_onetime ocs
