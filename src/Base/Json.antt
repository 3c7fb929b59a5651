-- ===== src/Base/Json.antt =====
-- The values of `map[string]any` that encoding/json makes, and what Go code does with them.
use vpn_price_public.Base.{Bool, false, Option, none, some, if◌then◌else◌, Text, text_eq}

mutual
  pub data Json : Type 0 where
    null : Json
    boolean : Bool → Json
    number : Text → Json
    string : Text → Json
    array : Items → Json
    object : Members → Json

  pub data Items : Type 0 where
    nil : Items
    cons : Json → Items → Items

  pub data Members : Type 0 where
    empty : Members
    member : Text → Json → Members → Members

-- `m[key]`
abbrev pub get : Text → Members → Json
get key Members.empty = Json.null
get key (Members.member k v m) = if text_eq k key then v else get key m

-- `m[key] = value`
abbrev pub set : Text → Json → Members → Members
set key value Members.empty = Members.member key value Members.empty
set key value (Members.member k v m) =
    let rest = set key value m in
    if text_eq k key then Members.member k value m else Members.member k v rest

-- `v == "text"`
abbrev pub is_string : Text → Json → Bool
is_string t (Json.string s) = text_eq s t
is_string t _ = false

-- `v.([]any)`
abbrev pub as_array : Json → Option Items
as_array (Json.array xs) = some xs
as_array _ = none

-- `v.(map[string]any)`
abbrev pub as_object : Json → Option Members
as_object (Json.object m) = some m
as_object _ = none

abbrev pub append_item : Items → Json → Items
append_item Items.nil x = Items.cons x Items.nil
append_item (Items.cons y ys) x = Items.cons y (append_item ys x)
