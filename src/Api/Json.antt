-- ===== src/Api/Json.antt =====
-- JSON values, as `response.json()` returns them and `JSON.stringify` takes them. The numbers that
-- frontend/lib/api.ts sends are counts, intervals and versions, so they are natural numbers.
use grouproxy.Base.{ℕ, String, Bool, Option, none, some, List, [], ◌∷◌, if◌then◌else◌, str_eq}

mutual
  pub data Json : Type 0 where
    null : Json
    bool : Bool → Json
    num : ℕ → Json
    str : String → Json
    arr : Items → Json
    obj : Fields → Json

  pub data Items : Type 0 where
    nil : Items
    cons : Json → Items → Items

  pub data Fields : Type 0 where
    end : Fields
    field : String → Json → Fields → Fields

-- `name in body` with the value; the parser leaves each name once.
unfoldable pub get : String → Fields → Option Json
get name end = none
get name (field k v fs) = if str_eq k name then some v else get name fs

-- An array of texts.
unfoldable pub strings : List String → Items
strings [] = nil
strings (s ∷ ss) = cons (str s) (strings ss)

-- `JSON.stringify` leaves out a field that is undefined.
unfoldable pub optional : String → Option Json → Fields → Fields
optional name none fs = fs
optional name (some v) fs = field name v fs
