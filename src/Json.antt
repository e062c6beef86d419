-- ===== src/Json.antt =====
-- The values of `JSON.parse`. A number keeps its text, since the sources never compute with a
-- parsed number; an object keeps its members as written, and the last of a repeated key counts.
use context_gate.Base.{Text, Bool, List, [], ◌∷◌, Option, none, some, text_eq, if◌then◌else◌}

mutual
  pub data Json : Type 0 where
    null : Json
    bool : Bool → Json
    num : Text → Json
    str : Text → Json
    arr : Items → Json
    obj : Fields → Json

  pub data Items : Type 0 where
    nil : Items
    cons : Json → Items → Items

  pub data Fields : Type 0 where
    end : Fields
    field : Text → Json → Fields → Fields

abbrev pub to_list : Items → List Json
to_list nil = []
to_list (cons v vs) = v ∷ to_list vs

abbrev pub of_list : List Json → Items
of_list [] = nil
of_list (v ∷ vs) = cons v (of_list vs)

-- `found ?? otherwise`
abbrev first_some : Option Json → Option Json → Option Json
first_some none w = w
first_some (some v) w = some v

unfoldable pub member_in : Fields → Text → Option Json
member_in end k = none
member_in (field j v fs) k = first_some (member_in fs k) (if text_eq j k then some v else none)

-- `value.key`; a member that is not there is `undefined`, as on anything but an object.
unfoldable pub member : Json → Text → Option Json
unfolding member_in
member (obj fs) k = member_in fs k
member _ k = none
