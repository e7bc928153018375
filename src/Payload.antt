-- ===== src/Payload.antt =====
-- What a task carries (tasks/*.py): the dict that `Database` stores as JSON. A value is one of the
-- JSON values that the task classes write; the one nested dict is that of an `EntityRef`.
use specseed.Prelude.{ℕ, String, Bool, Option, none, some, List, [], ◌∷◌, if◌then◌else◌, str_eq}

-- entities/entity_base.py: the slice of an entity that travels in payloads
pub record EntityRef : Type 0 where
  pub post_id : String
  pub tier : Option String
  pub status : Option String
  pub title : Option String

pub data Value : Type 0 where
  null : Value
  flag : Bool → Value
  num : ℕ → Value
  text : String → Value
  entity : EntityRef → Value

abbrev pub Payload : Type 0
Payload = List (String × Value)

-- payload.get(key): a missing key reads as None
unfoldable pub get : String → Payload → Value
get key [] = null
get key ((k, v) ∷ rest) = if str_eq k key then v else get key rest

-- an optional text as a JSON value
abbrev pub of_text : Option String → Value
of_text none = null
of_text (some s) = text s
