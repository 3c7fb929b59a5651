-- ===== src/Agent/Xray.antt =====
-- cmd/agent/main.go, `editXrayClients` and `inboundSettings`.
use vpn_price_public.Base.{Bool, true, false, ◌||◌, Option, none, some, if◌then◌else◌, Text, codes}
use vpn_price_public.Base.Json.{
  Json, Items, Members, get, set, is_string, as_array, as_object, append_item,
}

pub data AgentError : Type 0 where
  field_required : AgentError  -- the value that the client is matched by is empty
  no_inbounds : AgentError  -- the configuration has no array of inbounds
  tag_not_found : AgentError
  read_failed parse_failed write_failed reload_failed command_failed : AgentError
  temp_file_failed : AgentError

pub data Outcome {ℓ} (A : Type ℓ) : Type ℓ where
  ok : A → Outcome A
  err : AgentError → Outcome A

-- `cm[matchField] == matchValue` of a client that is an object
abbrev pub matches_object : Text → Text → Option Members → Bool
matches_object field value none = false
matches_object field value (some m) = is_string value (get field m)

abbrev pub is_client : Text → Text → Json → Bool
is_client field value c = matches_object field value (as_object c)

abbrev pub exists_client : Text → Text → Items → Bool
exists_client field value Items.nil = false
exists_client field value (Items.cons c cs) =
    is_client field value c || exists_client field value cs

abbrev pub without_client : Text → Text → Items → Items
without_client field value Items.nil = Items.nil
without_client field value (Items.cons c cs) =
    let rest = without_client field value cs in
    if is_client field value c then rest else Items.cons c rest

-- The loop over the clients and the append that may follow it.
abbrev pub edit_clients : Text → Text → Bool → Json → Items → Items
edit_clients field value true new_client clients =
    if exists_client field value clients then clients else append_item clients new_client
edit_clients field value false new_client clients = without_client field value clients

-- `clients, _ := settings["clients"].([]any)`
abbrev pub items_or_nil : Option Items → Items
items_or_nil none = Items.nil
items_or_nil (some xs) = xs

abbrev pub edit_settings : (Items → Items) → Members → Members
edit_settings f settings =
    set (codes "clients")
      (Json.array (f (items_or_nil (as_array (get (codes "clients") settings))))) settings

-- The settings of the inbound, empty if they are no object.
abbrev pub members_or_empty : Option Members → Members
members_or_empty none = Members.empty
members_or_empty (some m) = m

abbrev pub edit_inbound : (Items → Items) → Members → Members
edit_inbound f inbound =
    set (codes "settings")
      (Json.object
        (edit_settings f (members_or_empty (as_object (get (codes "settings") inbound)))))
      inbound

abbrev pub has_tag : Text → Json → Bool
has_tag tag ib = matches_object (codes "tag") tag (as_object ib)

abbrev pub cons_outcome : Json → Outcome Items → Outcome Items
cons_outcome ib (ok rest) = ok (Items.cons ib rest)
cons_outcome ib (err e) = err e

-- The loop over the inbounds: the first one with the tag is edited in place.
abbrev pub edit_first : (Items → Items) → Text → Items → Outcome Items
edit_first f tag Items.nil = err tag_not_found
edit_first f tag (Items.cons ib ibs) =
    let rest = edit_first f tag ibs in
    if has_tag tag ib
    then ok (Items.cons (Json.object (edit_inbound f (members_or_empty (as_object ib)))) ibs)
    else cons_outcome ib rest

abbrev pub with_inbounds : Members → Outcome Items → Outcome Members
with_inbounds cfg (ok ibs) = ok (set (codes "inbounds") (Json.array ibs) cfg)
with_inbounds cfg (err e) = err e

abbrev pub edit_inbounds : (Items → Items) → Text → Members → Option Items → Outcome Members
edit_inbounds f tag cfg none = err no_inbounds
edit_inbounds f tag cfg (some ibs) = with_inbounds cfg (edit_first f tag ibs)

-- What is done to the parsed configuration.
unfoldable pub edit_config : (Items → Items) → Text → Members → Outcome Members
edit_config f tag cfg = edit_inbounds f tag cfg (as_array (get (codes "inbounds") cfg))
