-- ===== src/Values/Json.antt =====
-- `json_to_ruby` of conv.rs. serde_json's numbers are a parameter, with their three readings.
use microsandbox_rb.Common.{◌≡◌, refl, String, Bool, Option, none, some, if◌then◌else◌, arith}
use microsandbox_rb.Common.Int.{ℤ}
use microsandbox_rb.Common.Text.{◌=?◌}
use microsandbox_rb.Options.Outside.{Outside}
use microsandbox_rb.Values.Hashes.{
  RubyValue, nil, bool, int, float, str, array, hash, Items, stop, item, Fields, end, aset, fetch,
  fetch-aset,
}

pub record Numbers (o : Outside) : Type 1 where
  pub Number : Type 0
  pub as_i64 : Number → Option ℤ
  pub as_u64 : Number → Option ℤ
  pub as_f64 : Number → Option o.F64

module _ (o : Outside) (n : Numbers o) where
  mutual
    pub data Json : Type 0 where
      null : Json
      truth : Bool → Json
      number : n.Number → Json
      text : String → Json
      list : Elements → Json
      object : Members → Json

    pub data Elements : Type 0 where
      nothing : Elements
      also : Json → Elements → Elements

    pub data Members : Type 0 where
      no_more : Members
      member : String → Json → Members → Members

  unfoldable pub number_to_ruby : n.Number → RubyValue o
  number_to_ruby x = elim (n.as_i64 x) [
    | some i ↦ int i
    | none ↦ elim (n.as_u64 x) [
      | some u ↦ int u
      | none ↦ elim (n.as_f64 x) [ some f ↦ float f | none ↦ float o.zero_f64 ]
    ]
  ]

  unfoldable mutual
    unfolding number_to_ruby aset

    pub json_to_ruby : Json → RubyValue o
    json_to_ruby null = nil
    json_to_ruby (truth b) = bool b
    json_to_ruby (number x) = number_to_ruby x
    json_to_ruby (text s) = str s
    json_to_ruby (list xs) = array (elements_to_ruby xs)
    json_to_ruby (object m) = hash (members_to_ruby end m)

    pub elements_to_ruby : Elements → Items o
    elements_to_ruby nothing = stop
    elements_to_ruby (also j js) = item (json_to_ruby j) (elements_to_ruby js)

    pub members_to_ruby : Fields o → Members → Fields o
    members_to_ruby h no_more = h
    members_to_ruby h (member k j m) = members_to_ruby (aset o k (json_to_ruby j) h) m

  -- The value of a key in a JSON object; of several, the last.
  abbrev pub member_at : String → Members → Option Json
  member_at k no_more = none
  member_at k (member j x m) = elim (member_at k m) [
    | some y ↦ some y
    | none ↦ if j =? k then some x else none
  ]

  abbrev pub read_or : Option (RubyValue o) → Option Json → Option (RubyValue o)
  read_or other none = other
  read_or other (some x) = some (json_to_ruby x)

  fetch-members_to_ruby :
      (k : String) (h : Fields o) (m : Members)
      → fetch o k (members_to_ruby h m) ≡ read_or (fetch o k h) (member_at k m)
  unfolding json_to_ruby
  fetch-members_to_ruby k h no_more = refl
  fetch-members_to_ruby k h (member j x m) = ground (
    arith,
    fetch-members_to_ruby k (aset o j (json_to_ruby x) h) m,
    fetch-aset o j k (json_to_ruby x) h,
  )

  abbrev pub fetched : String → RubyValue o → Option (RubyValue o)
  fetched k (hash h) = fetch o k h
  fetched k nil = none
  fetched k (bool _) = none
  fetched k (int _) = none
  fetched k (float _) = none
  fetched k (str _) = none
  fetched k (RubyValue.bytes _) = none
  fetched k (array _) = none

  -- The Hash made of a JSON object has exactly the object's keys: under each it has the Ruby value of
  -- the object's value there, and under any other key nothing.
  pub fetch-json_to_ruby :
      (k : String) (m : Members)
      → fetched k (json_to_ruby (object m)) ≡ read_or none (member_at k m)
  unfolding json_to_ruby fetch
  fetch-json_to_ruby k m = unfold fetch in fetch-members_to_ruby k end m
