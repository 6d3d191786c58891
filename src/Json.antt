-- ===== src/Json.antt =====
-- The Python values of payloads (src/tabdeal_signal/data_sources): the values of JSON, decimals and times. A
-- list is an `array` and a tuple a `tuple`, its items in order, a mapping its members, one for each key. Mappings that differ only in the
-- order of their members are equal in Python, so the members stand in the order of their keys.
pub mod Plain
use tabdeal_futures_signal_b.Prelude.{
  Bool, String, Option, none, some, text_eq, is_lt, text_compare, if◌then◌else◌, ℤ, blank, List, [],
  ◌∷◌,
}
use tabdeal_futures_signal_b.Times.{DateTime, Number}

mutual
  -- A `decimal` counts in units of 10^-1999999999999999997, which is exact for every `Decimal`.
  pub data Json : Type 0 where
    null : Json
    boolean : Bool → Json
    integer : ℤ → Json
    real : Number → Json
    decimal : Number → Json
    text : String → Json
    time : DateTime → Json
    array : Items → Json
    tuple : Items → Json
    object : Members → Json

  pub data Items : Type 0 where
    no_items : Items
    item : Json → Items → Items

  pub data Members : Type 0 where
    no_members : Members
    member : String → Json → Members → Members

abbrev pub items : Items → List Json
items no_items = []
items (item j rest) = j ∷ items rest

-- `mapping.get(key)`, which is `None` for a missing key and for a null.
abbrev pub get : String → Members → Json
get key no_members = null
get key (member k j rest) = if text_eq k key then j else get key rest

-- `mapping[key]`; a missing key is a KeyError.
abbrev pub find : String → Members → Option Json
find key no_members = none
find key (member k j rest) = if text_eq k key then some j else find key rest

-- `mapping[key] = value`
unfoldable pub put : String → Json → Members → Members
put key j no_members = member key j no_members
put key j (member k i rest) =
    if text_eq key k
    then member k j rest
    else if is_lt (text_compare k key)
    then member k i (put key j rest)
    else member key j (member k i rest)

-- `isinstance(value, str)`, `type(value) is int`, `isinstance(value, list)`, `isinstance(value, Mapping)`
abbrev pub as_text : Json → Option String
as_text (text s) = some s
as_text _ = none

abbrev pub as_integer : Json → Option ℤ
as_integer (integer n) = some n
as_integer _ = none

abbrev pub as_array : Json → Option Items
as_array (array xs) = some xs
as_array _ = none

abbrev pub as_object : Json → Option Members
as_object (object ms) = some ms
as_object _ = none

-- `isinstance(value, str) and value.strip()`
abbrev pub filled : Json → Option String
filled (text s) = if blank s then none else some s
filled _ = none
