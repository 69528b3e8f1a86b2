-- ===== src/Model/Json.antt =====
-- The JSON documents that a provider passes through: geometry and `<parameter>` blocks. The
-- members of an object and the elements of an array are chains of their own.
use cap_alerts.Prelude.{String, Bool}
use cap_alerts.Prelude.Int.{ℤ}

mutual
  pub data Json : Type 0 where
    object : Members → Json
    array : Elements → Json
    string : String → Json
    number : ℤ → Json
    boolean : Bool → Json
    absent : Json

  pub data Members : Type 0 where
    no_members : Members
    member : String → Json → Members → Members

  pub data Elements : Type 0 where
    no_elements : Elements
    element : Json → Elements → Elements
