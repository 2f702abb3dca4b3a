-- ===== src/Effects/Json.antt =====
-- Parsed JSON, as `res.json()` returns it. A number stands as the text that `String` makes of it:
-- the client passes the API's numbers on and does not compute with them.
use zkredit.Prelude.{
  ◌<>◌, String, Bool, true, false, not, ◌&&◌, Option, none, some, str_eq, if◌then◌else◌,
}

mutual
  pub data Json : Type 0 where
    null : Json
    bool : Bool → Json
    num : String → Json
    str : String → Json
    arr : Items → Json
    obj : Fields → Json

  pub data Items : Type 0 where
    nil : Items
    cons : Json → Items → Items

  pub data Fields : Type 0 where
    end : Fields
    field : String → Json → Fields → Fields

-- An own property of an object; `none` is `undefined`.
unfoldable pub lookup : String → Fields → Option Json
lookup key end = none
lookup key (field k v more) = if str_eq k key then some v else lookup key more

-- Writing a property, in place if it is there.
unfoldable pub assign : String → Json → Fields → Fields
assign key v end = field key v end
assign key v (field k w more) =
    if str_eq k key then field k v more else field k w (assign key v more)

-- The truth of a value in a condition. A number is false as 0 and NaN.
abbrev pub truthy : Json → Bool
truthy null = false
truthy (bool b) = b
truthy (num n) = not (str_eq n "0") && not (str_eq n "NaN")
truthy (str s) = not (str_eq s "")
truthy (arr xs) = true
truthy (obj fs) = true

abbrev pub truthy? : Option Json → Bool
truthy? none = false
truthy? (some j) = truthy j

-- A non-empty text, `undefined` and all else being absent.
abbrev pub text? : Option Json → Option String
text? (some (str s)) = if str_eq s "" then none else some s
text? _ = none

-- `value.key`; reading a property of `null` is a TypeError, and other values that are no objects
-- have no property of a name that is used here.
abbrev pub property : String → Json → Option Json
property key (obj fs) = lookup key fs
property key _ = none

abbrev pub is_null : Json → Bool
is_null null = true
is_null _ = false

-- `a ?? b`
abbrev pub or_else : Option Json → Option Json → Option Json
or_else (some null) b = b
or_else none b = b
or_else a b = a

-- `value === text`
abbrev pub equals_text : Option Json → String → Bool
equals_text (some (str s)) t = str_eq s t
equals_text _ t = false

-- `String(value)`; the items of an array are joined by commas, `null` as an empty text.
unfoldable mutual
  pub to_text : Json → String
  to_text null = "null"
  to_text (bool b) = if b then "true" else "false"
  to_text (num n) = n
  to_text (str s) = s
  to_text (arr xs) = items_text xs
  to_text (obj fs) = "[object Object]"

  pub item_text : Json → String
  item_text null = ""
  item_text (bool b) = if b then "true" else "false"
  item_text (num n) = n
  item_text (str s) = s
  item_text (arr xs) = items_text xs
  item_text (obj fs) = "[object Object]"

  pub items_text : Items → String
  items_text nil = ""
  items_text (cons x xs) = join_rest (item_text x) xs

  pub join_rest : String → Items → String
  join_rest acc nil = acc
  join_rest acc (cons x xs) = acc <> "," <> join_rest (item_text x) xs

-- `${value}` of a property
abbrev pub text_of : Option Json → String
text_of none = "undefined"
text_of (some j) = to_text j
