-- ===== src/Base/Json.antt =====
-- The values that encoding/json decodes into `any`. Encoding and decoding are the standard
-- library's, and are parameters where the program calls them.
use slay_push.Base.{String, Bool, Option}

mutual
  pub data Value : Type 0 where
    null : Value
    boolean : Bool → Value
    -- A number, by its text.
    number : String → Value
    str : String → Value
    list_of : Elements → Value
    map_of : Fields → Value

  pub data Elements : Type 0 where
    no_elements : Elements
    element : Value → Elements → Elements

  -- A map[string]any: its keys and their values.
  pub data Fields : Type 0 where
    end : Fields
    field : String → Value → Fields → Fields

-- A map[string]any that may be nil.
abbrev pub Data : Type 0
Data = Option Fields
