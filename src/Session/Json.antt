-- ===== src/Session/Json.antt =====
-- `SafeJson` and `SafeMetadata` of packages/session-runtime/src/types.ts, as values that the
-- runtime inspects at a key. Metadata is an object with arbitrary keys, so it is `Fields` too.
use qodex.Common.{ℕ, String, Bool, true, false, Option, none, some, ◌==◌, eqb, if◌then◌else◌}

-- A number as the runtime tells them apart: an integer that is at least 0, or any other, by the
-- text that it prints as.
pub data Number : Type 0 where
  natural : ℕ → Number
  other : String → Number

mutual
  pub data Json : Type 0 where
    null : Json
    bool : Bool → Json
    num : Number → Json
    str : String → Json
    arr : Items → Json
    obj : Fields → Json

  pub data Items : Type 0 where
    nil : Items
    cons : Json → Items → Items

  pub data Fields : Type 0 where
    end : Fields
    field : String → Json → Fields → Fields

-- `object[key]`, `none` for `undefined`
unfoldable pub get : String → Fields → Option Json
get key end = none
get key (field k v rest) = if k == key then some v else get key rest

-- `typeof object[key] === "string"`
as_text : Option Json → Option String
as_text (some (str s)) = some s
as_text _ = none

unfoldable pub text_at : String → Fields → Option String
unfolding as_text
text_at key fields = as_text (get key fields)

-- `typeof v === "number" && Number.isInteger(v) && v >= 0`
as_natural : Option Json → Option ℕ
as_natural (some (num (natural n))) = some n
as_natural _ = none

unfoldable pub natural_at : String → Fields → Option ℕ
unfolding as_natural
natural_at key fields = as_natural (get key fields)

-- `isRecord`
unfoldable pub fields_of : Json → Option Fields
fields_of (obj fs) = some fs
fields_of _ = none

-- `payload[key]` where the payload may be no record
unfoldable pub payload_at : String → Json → Option Json
unfolding fields_of
payload_at key payload = elim (fields_of payload) [ none ↦ none | some fs ↦ get key fs ]

unfoldable pub payload_text : String → Json → Option String
unfolding payload_at as_text
payload_text key payload = as_text (payload_at key payload)

unfoldable pub same_number : Number → Number → Bool
same_number (natural a) (natural b) = eqb a b
same_number (other a) (other b) = a == b
same_number _ _ = false

-- `===`: two objects of different trees are never the same one.
same_json : Json → Json → Bool
unfolding same_number
same_json null null = true
same_json (bool true) (bool true) = true
same_json (bool false) (bool false) = true
same_json (num a) (num b) = same_number a b
same_json (str a) (str b) = a == b
same_json _ _ = false

unfoldable pub same_value : Option Json → Option Json → Bool
unfolding same_json
same_value none none = true
same_value (some a) (some b) = same_json a b
same_value _ _ = false
