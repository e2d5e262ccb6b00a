-- ===== src/Json.antt =====
-- JSON values, as the API reads them from a request body or a `jsonb` column. The properties of an
-- object stand in the order of `Object.entries`.
use Prim.Native.Nat.{ℕ, zero}
use Prim.Native.String.{String}
use mathlib.Core.Bool.{Bool, true, false, not}
use mathlib.Core.Option.{Option, none, some}
use mathlib.Core.List.{List, [], ◌∷◌}
use manage_call_ai.Base.{if◌then◌else◌, str_eq}

-- A number of JSON: n, -(n + 1), or one that is no integer, by its sign and its text.
pub data Number : Type 0 where
  nat : ℕ → Number
  negative : ℕ → Number
  fraction : (below_zero : Bool) → String → Number

mutual
  -- The properties of an object.
  pub data Props : Type 0 where
    prop : (key : String) (value : Json) → Props → Props
    end : Props

  pub data Json : Type 0 where
    obj : (properties : Props) → Json
    arr : (items : Elems) → Json
    str : (text : String) → Json
    num : (number : Number) → Json
    bool : Bool → Json
    null : Json

  -- The items of an array.
  pub data Elems : Type 0 where
    cons : (item : Json) → Elems → Elems
    nil : Elems

abbrev pub entries : Props → List (String × Json)
entries (prop key value rest) = (key, value) ∷ entries rest
entries end = []

abbrev pub elems : Elems → List Json
elems (cons item rest) = item ∷ elems rest
elems nil = []

-- `object[key]`; `none` is `undefined`.
abbrev pub get : String → Props → Option Json
get key end = none
get key (prop k v ps) = if str_eq k key then some v else get key ps

-- `typeof value === 'string' ? value : …`.
abbrev pub string_of : Option Json → Option String
string_of (some (str s)) = some s
string_of _ = none

-- `typeof value === 'number' ? value : …`.
abbrev pub number_of : Option Json → Option Number
number_of (some (num n)) = some n
number_of _ = none

-- `Array.isArray(value) ? value : …`.
abbrev pub array_of : Option Json → Option (List Json)
array_of (some (arr vs)) = some (elems vs)
array_of _ = none

-- `typeof value === 'object' && value !== null && !Array.isArray(value) ? value : …`.
abbrev pub object_of : Option Json → Option Props
object_of (some (obj ps)) = some ps
object_of _ = none

abbrev pub truthy_number : Number → Bool
truthy_number (nat zero) = false
truthy_number _ = true

-- `!!value`.
abbrev pub truthy : Option Json → Bool
truthy none = false
truthy (some null) = false
truthy (some (bool b)) = b
truthy (some (num n)) = truthy_number n
truthy (some (str s)) = not (str_eq s "")
truthy _ = true

abbrev pub or_default {ℓ} : {A : Type ℓ} → Option A → A → A
or_default none d = d
or_default (some a) d = a

-- `typeof object[key] === 'string' ? object[key] : undefined`, and the same with `''` for it.
abbrev pub string_field : String → Props → Option String
string_field key ps = string_of (get key ps)

abbrev pub string_or_empty : String → Props → String
string_or_empty key ps = or_default (string_field key ps) ""
