-- ===== src/Wire/Json.antt =====
-- The values of `JSON.parse`, over any type of numbers. The keys of an object are distinct.
use pontis.Base.{String, Bool, true, false, Option, none, some, ◌==◌, if◌then◌else◌}

mutual
  pub data Json (Number : Type 0) : Type 0 where
    null : Json Number
    bool : Bool → Json Number
    number : Number → Json Number
    text : String → Json Number
    array : Items Number → Json Number
    object : Fields Number → Json Number

  pub data Items (Number : Type 0) : Type 0 where
    nil : Items Number
    item : Json Number → Items Number → Items Number

  pub data Fields (Number : Type 0) : Type 0 where
    end : Fields Number
    field : String → Json Number → Fields Number → Fields Number

module _ {Number : Type 0} where
  -- `value[key]`, `none` for `undefined`.
  unfoldable pub lookup : String → Fields Number → Option (Json Number)
  lookup key Fields.end = none
  lookup key (Fields.field k v fs) = if k == key then some v else lookup key fs

  -- A property of a value that is not null; only an object has the keys of the wire.
  abbrev pub member : Json Number → String → Option (Json Number)
  member (Json.object fs) key = lookup key fs
  member _ key = none

  -- `value !== null && typeof value === 'object'`
  abbrev pub is_object : Json Number → Bool
  is_object (Json.object fs) = true
  is_object (Json.array xs) = true
  is_object _ = false

  abbrev pub every : (Json Number → Bool) → Items Number → Bool
  every p Items.nil = true
  every p (Items.item x xs) = let rest = every p xs in if p x then rest else false
