-- ===== src/Json/Plain.antt =====
-- The values that JSON has, of which `json.dumps` and `json.loads` of Python's library are inverse: no
-- decimals, times, tuples (which load as lists) and NaN (which equals nothing).
use tabdeal_futures_signal_b.Prelude.{Bool, true, false, ◌&&◌, String, is_lt, text_compare}
use tabdeal_futures_signal_b.Times.{nan}
use tabdeal_futures_signal_b.Json.{
  Json, real, decimal, time, array, tuple, object, Items, no_items, item, Members, no_members,
  member,
}

-- The first key, if any, is after this one.
unfoldable pub is_after_key : String → Members → Bool
is_after_key key no_members = true
is_after_key key (member k j rest) = is_lt (text_compare key k)

unfoldable mutual
  unfolding is_after_key

  pub is_plain : Json → Bool
  is_plain (real nan) = false
  is_plain (decimal _) = false
  is_plain (time _) = false
  is_plain (tuple _) = false
  is_plain (array xs) = are_plain xs
  is_plain (object ms) = plain_members ms
  is_plain _ = true

  pub are_plain : Items → Bool
  are_plain no_items = true
  are_plain (item j rest) = is_plain j && are_plain rest

  pub plain_members : Members → Bool
  plain_members no_members = true
  plain_members (member k j rest) = is_after_key k rest && is_plain j && plain_members rest
