-- ===== src/Agent/Delivery.antt =====
-- What the agent is told of onetime commands.
use config_server.Prelude.{
  ℕ, zero, suc, ◌<◌, ◌≡◌, ◌≢◌, refl, ap, sym, ◌∙◌, Bool, true, not, ◌&&◌, Option, none, some, List,
  [], ◌∷◌, Bytes, bytes_eq, bytes_eq_iff, bytes_eq_refl, codes, ℤ, pos, int_lt, any, arith,
}
use config_server.Prelude.Dict.{Dict, lookup, insert, has_key, lookup-insert}
use config_server.Strings.{format_int}
use config_server.Strings.Format.{format_int-injective}
use config_server.Model.{OnetimeCommand}
use config_server.Agent.{CommandDetail}
use config_server.Agent.Onetime.{
  JsonObjects, onetime_generation_key, has_command, cancellations, global_of, inject_generation,
  with_generation, onetime_detail_with_generation,
}

-- Some update of the list is for the name.
abbrev names_update : Bytes → List CommandDetail → Bool
names_update name us = any (λ (u : CommandDetail). bytes_eq u.name name) us

-- A command that the agent reports is cancelled exactly if no command of that name is assigned any
-- more; whether its delivery deadline has passed makes no difference.
cancellations_exact :
    (agent_onetime : Dict ℤ) (ocs : List OnetimeCommand) (name : Bytes)
    → names_update name (cancellations agent_onetime ocs)
      ≡ has_key name agent_onetime && not (has_command name ocs)
unfolding cancellations has_key
cancellations_exact [] ocs name = refl
cancellations_exact ((k, v) ∷ m) ocs name =
    ground (arith, bytes_eq_iff k name, cancellations_exact m ocs name)

pub cancellations-quiet :
    (m : Dict ℤ) (ocs : List OnetimeCommand)
    → ((name : Bytes) → has_key name m ≡ true → has_command name ocs ≡ true)
    → cancellations m ocs ≡ []
unfolding cancellations has_key
cancellations-quiet [] ocs h = refl
cancellations-quiet ((k, v) ∷ m) ocs h =
    ground (
      arith,
      bytes_eq_refl k,
      h k,
      cancellations-quiet m ocs (λ name n. h name (ground (arith, n))),
    )

-- The documented behaviour of encoding/json on objects: a map that is encoded decodes to a map with
-- the same entries, a map as a value is that map, and a number keeps its text.
pub record IsCodec (json : JsonObjects) : Type 0 where
  pub decodes :
      (m : Dict json.Value) (out : Bytes) (k : Bytes)
      → json.encode_object m ≡ some out
      → (m' : Dict json.Value) × (json.decode_object out ≡ some m') × (lookup k m' ≡ lookup k m)
  pub is_object :
      (m : Dict json.Value) (k : Bytes)
      → (m' : Dict json.Value) × (json.as_object (json.of_object m) ≡ some m')
        × (lookup k m' ≡ lookup k m)
  pub keeps_text : (s t : Bytes) → json.number s ≡ json.number t → s ≡ t

-- A command whose content is a JSON object, with a creation time after 1970, that encodes again
-- with its generation.
pub record HasGeneration (json : JsonObjects) (oc : OnetimeCommand) (gen : ℕ) : Type 0 where
  pub created : oc.created_at ≡ pos gen
  pub positive : 0 < gen
  pub root : Dict json.Value
  pub is_root : json.decode_object oc.detail ≡ some root
  pub out : Bytes
  pub is_out : json.encode_object (inject_generation json gen root) ≡ some out

module _ (json : JsonObjects) (codec : IsCodec json) where
  open json use {Value, decode_object, encode_object, as_object, of_object, number}

  abbrev lookup_in : Bytes → Option (Dict Value) → Option Value
  lookup_in k none = none
  lookup_in k (some m) = lookup k m

  abbrev to_object : Option Value → Option (Dict Value)
  to_object none = none
  to_object (some v) = as_object v

  -- The generation that a text carries.
  abbrev generation_of : Bytes → Option Value
  generation_of s =
      lookup_in onetime_generation_key (to_object (lookup_in (codes "global") (decode_object s)))

  lookup-inject_generation :
      (gen : ℕ) (root : Dict Value)
      → (global : Dict Value) × (lookup (codes "global") (inject_generation json gen root)
          ≡ some (of_object global))
        × (lookup onetime_generation_key global ≡ some (number (format_int gen)))
  unfolding inject_generation
  lookup-inject_generation gen root =
      let text = number (format_int gen) in
      let old = global_of json (lookup (codes "global") root) in
      let global = insert onetime_generation_key text old in
      (
        global,
        lookup-insert (codes "global") (codes "global") (of_object global) root
            ∙ (unfold bytes_eq in refl),
        lookup-insert onetime_generation_key onetime_generation_key text old
            ∙ (unfold bytes_eq in refl),
      )

  generation_of-encode :
      (gen : ℕ) (root : Dict Value) (out : Bytes)
      → encode_object (inject_generation json gen root) ≡ some out
      → generation_of out ≡ some (number (format_int gen))
  generation_of-encode gen root out h =
      let (global, is_global, is_text) = lookup-inject_generation gen root in
      let (m, decoded, same) =
        codec.decodes (inject_generation json gen root) out (codes "global") h in
      let (g, object, same_text) = codec.is_object global onetime_generation_key in
      rw (decoded, same, is_global, object, same_text) is_text

  delivered :
      (oc : OnetimeCommand) (gen : ℕ)
      → (h : HasGeneration json oc gen) → onetime_detail_with_generation json oc ≡ h.out
  unfolding onetime_detail_with_generation with_generation int_lt
  delivered oc zero h = absurd (omega (arith, h.positive))
  delivered oc (suc gen) h = rw (h.created) (ground (arith, h.is_root, h.is_out))

  -- Deleting a command and creating it again makes a new one to the agents: two commands whose
  -- contents are JSON objects, equal or not, are delivered as different bytes where they were
  -- created at different times after 1970. The codec decodes what it encodes to the same entries.
  generation_distinguishes :
      (a b : OnetimeCommand) (m n : ℕ)
      → HasGeneration json a m
      → HasGeneration json b n
      → m ≢ n
      → onetime_detail_with_generation json a ≢ onetime_detail_with_generation json b
  generation_distinguishes a b m n ha hb differ e =
      let same : ha.out ≡ hb.out = sym (delivered a m ha) ∙ e ∙ delivered b n hb in
      let texts : some (number (format_int m)) ≡ some (number (format_int n)) =
        sym (generation_of-encode m ha.root ha.out ha.is_out)
        ∙ ap generation_of same
        ∙ generation_of-encode n hb.root hb.out hb.is_out in
      differ (format_int-injective m n (codec.keeps_text (format_int m) (format_int n) (cc texts)))
