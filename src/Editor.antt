-- ===== src/Editor.antt =====
-- web/src/OntologyEditor.tsx: the blank items, and the id that the editor suggests for a name.
-- `normalize("NFKD")` and `toLowerCase()` are JavaScript's, and are the arguments `normalize` and
-- `lower`.
pub mod Fresh
pub mod Form
pub mod Tests
use context_gate.Base.{
  ℕ, zero, suc, ◌+◌, ◌*◌, ◌/◌, ◌%◌, Text, codes, Bool, true, false, not, ◌&&◌, ◌||◌, List, [], ◌∷◌,
  ◌++◌, map, Option, none, some, if◌then◌else◌, ◌==◌, ltb, leb, length, take, filter, truthy,
  includes,
}
use context_gate.Ontology.{EntityType, Property, RelationType, OntologyDefinition}
use context_gate.Semantics.{OntologyItem, entity_type, property, relation_type}

pub data OntologyKind : Type 0 where
  entities properties relations : OntologyKind

unfoldable pub new_ontology_item : OntologyKind → Text → OntologyItem
new_ontology_item entities owner = entity_type (record {
  id = [];
  name = [];
  aliases = none;
  description = none;
  parent = none;
  identity = none;
})
new_ontology_item properties owner = property (record {
  id = [];
  entity = owner;
  name = [];
  aliases = none;
  description = none;
  type = codes "string";
  required = false;
  multiple = false;
  unique = none;
  unit = none;
  enums = none;
  minimum = none;
  maximum = none;
  time_definition = none;
})
new_ontology_item relations owner = relation_type (record {
  id = [];
  name = [];
  aliases = none;
  description = none;
  from = owner;
  to = [];
  directed = true;
  from_cardinality = record { min = 1; max = some 1 };
  to_cardinality = record { min = 0; max = none };
})

-- `.replace(/[\u0300-\u036f]/g, "")`
unfoldable pub without_marks : Text → Text
without_marks s = filter (λ c. not (leb 768 c && leb c 879)) s

-- `[a-z0-9]`
unfoldable pub slug_code : ℕ → Bool
slug_code c = (leb 97 c && leb c 122) || (leb 48 c && leb c 57)

-- `.replace(/[^a-z0-9]+/g, "-")`; the flag says that the run before has its dash already.
unfoldable pub dashed : Bool → Text → Text
dashed in_run [] = []
dashed in_run (c ∷ s) =
    let kept = dashed false s in
    let run = dashed true s in if slug_code c then c ∷ kept else if in_run then run else 45 ∷ run

-- `.replace(/^-|-$/g, "")`: the two ends.
unfoldable pub without_first : Text → Text
without_first [] = []
without_first (c ∷ s) = if c == 45 then s else c ∷ s

unfoldable pub without_last : Text → Text
without_last [] = []
without_last (c ∷ []) = if c == 45 then [] else c ∷ []
without_last (c ∷ d ∷ s) = c ∷ without_last (d ∷ s)

abbrev pub fallback : OntologyKind → Text
fallback entities = codes "entity"
fallback properties = codes "property"
fallback relations = codes "relationship"

-- `slug || fallback`
abbrev or_fallback : Text → OntologyKind → Text
or_fallback [] kind = fallback kind
or_fallback (c ∷ s) kind = c ∷ s

-- `definition[kind].map((v) => v.id)`
unfoldable pub used_ids : OntologyDefinition → OntologyKind → List Text
used_ids d entities = map (λ v. EntityType.id v) d.entities
used_ids d properties = map (λ v. Property.id v) d.properties
used_ids d relations = map (λ v. RelationType.id v) d.relations

-- `${n}`, with enough fuel for the digits.
unfoldable pub digits : ℕ → ℕ → Text
digits zero n = []
digits (suc fuel) n =
    let rest = digits fuel (n / 10) in
    if ltb n 10 then (48 + n) ∷ [] else rest ++ (48 + n % 10) ∷ []

unfoldable pub decimal : ℕ → Text
decimal n = digits (n + 1) n

unfoldable pub numbered : ℕ → Text → ℕ → Text
numbered sep base i = base ++ sep ∷ decimal i

-- The loop from `i` on with the sign in front of the number, behind an id that is used; `none` says that the fuel ran out.
unfoldable pub next_id : ℕ → ℕ → Text → List Text → ℕ → Option Text
next_id sep zero base used i = none
next_id sep (suc fuel) base used i =
    let later = next_id sep fuel base used (i + 1) in
    if includes used (numbered sep base i) then later else some (numbered sep base i)

unfoldable pub fresh_id : ℕ → Text → List Text → Option Text
fresh_id sep base used =
    let later = next_id sep (length used) base used 2 in
    if includes used base then later else some base

module _ (normalize lower : Text → Text) where
  unfoldable pub slug : Text → Text
  slug name = without_last (without_first (dashed false (lower (without_marks (normalize name)))))

  -- `owner ? owner + "." : ""`, the slug, and the cut at 88.
  unfoldable pub base_id : Text → OntologyKind → Text → Text
  base_id name kind owner =
      take 88 ((if truthy owner then owner ++ codes "." else []) ++ or_fallback (slug name) kind)

  unfoldable pub suggested_id : Text → OntologyKind → OntologyDefinition → Text → Option Text
  suggested_id name kind d owner = fresh_id 45 (base_id name kind owner) (used_ids d kind)
