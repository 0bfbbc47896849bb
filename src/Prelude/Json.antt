-- ===== src/Prelude/Json.antt =====
-- A parsed JSON body, as the code reads one of unknown shape.
use prism_control_plane.Prelude.{
  Bool, true, false, String, Option, none, some, str_eq, if◌then◌else◌,
}
use prism_control_plane.Prelude.Number.{Number}

mutual
  pub data Json : Type 0 where
    null : Json
    bool : Bool → Json
    num : Number → Json
    str : String → Json
    arr : Items → Json
    obj : Fields → Json

  pub data Items : Type 0 where
    nil : Items
    cons : Json → Items → Items

  pub data Fields : Type 0 where
    end : Fields
    field : String → Json → Fields → Fields

abbrev pub find_field : String → Fields → Option Json
find_field k end = none
find_field k (field j v fs) = if str_eq j k then some v else find_field k fs

-- `typeof v === "object" && v !== null`
abbrev pub is_object : Json → Bool
is_object (arr xs) = true
is_object (obj fs) = true
is_object _ = false

-- The object's member; `none` is `undefined`. An array has no member by the names that are read.
abbrev pub member : String → Json → Option Json
member k (obj fs) = find_field k fs
member k _ = none

-- `a ?? b`
abbrev pub coalesce : Option Json → Option Json → Option Json
coalesce none b = b
coalesce (some null) b = b
coalesce a b = a
