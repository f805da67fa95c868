-- ===== src/Json.antt =====
-- Values of JSON, as `json.load` and `Response.json` return them.
use cs4455_epic.Base.{Bool, true, false, not, Option, none, some, List, [], ◌∷◌, map, ◌==◌}
use cs4455_epic.Base.Int.{ℤ, pos, negsuc}
use cs4455_epic.Base.Dict.{Dict}
use cs4455_epic.Base.Text.{Str, str_eq}

mutual
  pub data Json : Type 0 where
    null : Json
    bool : Bool → Json
    int : ℤ → Json
    str : Str → Json
    arr : Items → Json
    obj : Fields → Json

  pub data Items : Type 0 where
    nil : Items
    cons : Json → Items → Items

  pub data Fields : Type 0 where
    end : Fields
    field : Str → Json → Fields → Fields

abbrev pub items : Items → List Json
items nil = []
items (cons x xs) = x ∷ items xs

abbrev pub fields : Fields → Dict Json
fields end = []
fields (field k v fs) = (k, v) ∷ fields fs

abbrev pub obj_of : Dict Json → Fields
obj_of [] = end
obj_of ((k, v) ∷ d) = field k v (obj_of d)

-- `bool(v)`
abbrev pub truthy : Json → Bool
truthy null = false
truthy (bool b) = b
truthy (int (pos n)) = not (n == 0)
truthy (int (negsuc n)) = true
truthy (str s) = not (str_eq s [])
truthy (arr nil) = false
truthy (arr (cons x xs)) = true
truthy (obj end) = false
truthy (obj (field k v fs)) = true

-- What `for x in v` runs over; `none` is a `TypeError`.
unfoldable pub elements : Json → Option (List Json)
elements (arr xs) = some (items xs)
elements (obj fs) = some (map (λ e. str e.0) (fields fs))
elements (str s) = some (map (λ c. str (c ∷ [])) s)
elements _ = none
