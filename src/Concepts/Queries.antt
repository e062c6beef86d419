-- ===== src/Concepts/Queries.antt =====
-- Which queries a concept lists, and what linking a query to a concept does.
use context_gate.Base.{
  Text, ◌≡◌, refl, ◌≢◌, ◌↔◌, ◌⊎◌, inl, inr, Bool, true, ◌&&◌, ◌||◌, List, [], ◌∷◌, ◌++◌, map,
  Option, none, some, arith, any, filter, Any, Has, any_of_iff, Has-filter, Has-append, text_eq,
  text_eq_iff, includes, includes_iff, Bool-cases,
}
use context_gate.Ontology.{
  OntologyDefinition, RelationType, EntityMapping, PropertyMapping, RelationMapping,
  OntologyBinding, entity_ref, property_ref, relation_ref,
}
use context_gate.Semantics.{QueryTemplate, SemanticEntry, SemanticSnapshot}
use context_gate.Concepts.{
  or_nil, touches, given, selected, own_properties, own_relations, own_refs, own_ids, queries_in,
  concept_queries,
}

-- The relation of a mapping starts or ends at the entity.
abbrev pub Touches : Option OntologyDefinition → Text → RelationMapping → Type 0
Touches none entity m = ⊥
Touches (some d) entity m =
    Any
      (λ r.
        (RelationType.id r ≡ m.relation)
        × ((RelationType.from r ≡ entity) ⊎ (RelationType.to r ≡ entity)))
      d.relations

-- An id that a mapping of the entity's properties or relations names as its query.
abbrev pub MappedBy : OntologyBinding → Text → Option OntologyDefinition → Text → Type 0
MappedBy b entity d id =
    (id ≢ [])
    × (Any (λ m. (PropertyMapping.entity m ≡ entity) × (PropertyMapping.template_id m ≡ some id))
          b.properties
        ⊎ Any (λ m. Touches d entity m × (RelationMapping.template_id m ≡ some id)) b.relations)

-- A reference to the entity, to one of its mapped properties or to one of its mapped relations.
abbrev pub RefersTo : OntologyBinding → Text → Option OntologyDefinition → Text → Type 0
RefersTo b entity d ref =
    (entity_ref entity ≡ ref)
    ⊎ (Any
          (λ m.
            (PropertyMapping.entity m ≡ entity)
            × (property_ref entity (PropertyMapping.property m) ≡ ref))
          b.properties
        ⊎ Any (λ m. Touches d entity m × (relation_ref (RelationMapping.relation m) ≡ ref))
            b.relations)

-- The query `e` belongs to the concept.
abbrev pub Concerns : OntologyBinding → Text → Option OntologyDefinition → SemanticEntry → Type 0
Concerns b entity d e =
    (t : QueryTemplate) × (e.template ≡ some t)
    × (MappedBy b entity d e.id ⊎ Any (RefersTo b entity d) (or_nil t.concept_refs))

touches_iff :
    (d : Option OntologyDefinition) (entity : Text) (m : RelationMapping)
    → (touches d entity m ≡ true) ↔ Touches d entity m
unfolding touches
touches_iff none entity m = ground arith
touches_iff (some d) entity m = any_of_iff _ _ d.relations (λ r. ground (
  arith,
  text_eq_iff (RelationType.id r) m.relation,
  text_eq_iff (RelationType.from r) entity,
  text_eq_iff (RelationType.to r) entity,
))

Has-given : (xs : List (Option Text)) (a : Text) → Has a (given xs) ↔ ((a ≢ []) × Has (some a) xs)
unfolding given
Has-given [] a = ground arith
Has-given (none ∷ xs) a = ground (arith, Has-given xs a)
Has-given (some [] ∷ xs) a = ground (arith, Has-given xs a)
Has-given (some (c ∷ s) ∷ xs) a = ground (arith, Has-given xs a)

or_of_iff :
    (p q : Bool) (P Q : Type 0) → (p ≡ true) ↔ P → (q ≡ true) ↔ Q → ((p || q) ≡ true) ↔ (P ⊎ Q)
or_of_iff p q P Q hp hq = ground arith

and_of_iff :
    (p q : Bool) (P Q : Type 0) → (p ≡ true) ↔ P → (q ≡ true) ↔ Q → ((p && q) ≡ true) ↔ (P × Q)
and_of_iff p q P Q hp hq = ground arith

-- A test and a projection over a list of mappings, as one statement about its elements.
Has-map-filter :
    {A B : Type 0} (p : A → Bool) (P : A → Type 0) (f : A → B) (xs : List A) (b : B)
    → ((a : A) → (p a ≡ true) ↔ P a)
    → Has b (map f (filter p xs)) ↔ Any (λ a. P a × (f a ≡ b)) xs
Has-map-filter p P f [] b h = ground arith
Has-map-filter p P f (x ∷ xs) b h = ground (arith, h x, Has-map-filter p P f xs b h)

Any-or :
    {A : Type 0} (P Q : A → Type 0) (xs : List A) → Any (λ a. P a ⊎ Q a) xs ↔ (Any P xs ⊎ Any Q xs)
Any-or P Q [] = ground arith
Any-or P Q (x ∷ xs) = ground (arith, Any-or P Q xs)

Any-imp :
    {A : Type 0} (P Q : A → Type 0) (xs : List A) → ((a : A) → P a → Q a) → Any P xs → Any Q xs
Any-imp P Q [] f h = absurd h
Any-imp P Q (x ∷ xs) f (inl p) = inl (f x p)
Any-imp P Q (x ∷ xs) f (inr h) = inr (Any-imp P Q xs f h)

module _ (ontology_id entity : Text) (d : Option OntologyDefinition) (b : OntologyBinding) where
  Has-own_ids : (id : Text) → Has id (own_ids ontology_id entity d b) ↔ MappedBy b entity d id
  unfolding own_ids own_properties own_relations
  Has-own_ids id = ground (
    arith,
    Has-given
        (map (λ m. PropertyMapping.template_id m) (own_properties ontology_id entity d b)
          ++ map (λ m. RelationMapping.template_id m) (own_relations ontology_id entity d b))
        id,
    Has-append (map (λ m. PropertyMapping.template_id m) (own_properties ontology_id entity d b))
        (map (λ m. RelationMapping.template_id m) (own_relations ontology_id entity d b)) (some id),
    Has-map-filter (λ m. text_eq (PropertyMapping.entity m) entity)
        (λ m. PropertyMapping.entity m ≡ entity) (λ m. PropertyMapping.template_id m) b.properties
        (some id) (λ m. text_eq_iff (PropertyMapping.entity m) entity),
    Has-map-filter (touches d entity) (Touches d entity) (λ m. RelationMapping.template_id m)
        b.relations (some id) (touches_iff d entity),
  )

  Has-own_refs : (ref : Text) → Has ref (own_refs ontology_id entity d b) ↔ RefersTo b entity d ref
  unfolding own_refs own_properties own_relations
  Has-own_refs ref = ground (
    arith,
    Has-append
        (map (λ m. property_ref entity (PropertyMapping.property m))
          (own_properties ontology_id entity d b))
        (map (λ m. relation_ref (RelationMapping.relation m))
          (own_relations ontology_id entity d b))
        ref,
    Has-map-filter (λ m. text_eq (PropertyMapping.entity m) entity)
        (λ m. PropertyMapping.entity m ≡ entity)
        (λ m. property_ref entity (PropertyMapping.property m)) b.properties ref
        (λ m. text_eq_iff (PropertyMapping.entity m) entity),
    Has-map-filter (touches d entity) (Touches d entity)
        (λ m. relation_ref (RelationMapping.relation m)) b.relations ref (touches_iff d entity),
  )

  selected_iff :
      (e : SemanticEntry) (t : Option QueryTemplate)
      → (selected (own_refs ontology_id entity d b) (own_ids ontology_id entity d b) e t ≡ true) ↔ (
          (u : QueryTemplate) × (t ≡ some u)
          × (MappedBy b entity d e.id ⊎ Any (RefersTo b entity d) (or_nil u.concept_refs)))
  unfolding selected
  selected_iff e none = ((λ h. cc), λ (u, h, _). cc)
  selected_iff e (some t) =
      let refs = own_refs ontology_id entity d b in
      let ids = own_ids ontology_id entity d b in
      let named : (any (includes refs) (or_nil t.concept_refs) ≡ true)
          ↔ Any (RefersTo b entity d) (or_nil t.concept_refs) =
        any_of_iff _ _ (or_nil t.concept_refs) (λ r. (
          (λ h. (Has-own_refs r).0 ((includes_iff refs r).0 h)),
          λ h. (includes_iff refs r).1 ((Has-own_refs r).1 h),
        )) in
      let mapped : (includes ids e.id ≡ true) ↔ MappedBy b entity d e.id = (
        (λ h. (Has-own_ids e.id).0 ((includes_iff ids e.id).0 h)),
        λ h. (includes_iff ids e.id).1 ((Has-own_ids e.id).1 h),
      ) in
      let test : ((includes ids e.id || any (includes refs) (or_nil t.concept_refs)) ≡ true)
          ↔ (MappedBy b entity d e.id ⊎ Any (RefersTo b entity d) (or_nil t.concept_refs)) =
        or_of_iff _ _ _ _ mapped named in
      ((λ h. (t, refl, test.0 h)), λ (u, same, h). test.1 (unwrap same h))
    where
      unwrap :
          {u : QueryTemplate}
          → some t ≡ some u
          → MappedBy b entity d e.id ⊎ Any (RefersTo b entity d) (or_nil u.concept_refs)
          → MappedBy b entity d e.id ⊎ Any (RefersTo b entity d) (or_nil t.concept_refs)
      unwrap {u} same h = let eq : t ≡ u = cc in rw eq h

-- The source's binding is to the ontology, and maps the entity.
abbrev pub Maps : OntologyBinding → Text → Text → Type 0
Maps b ontology_id entity =
    (b.ontology_id ≡ ontology_id) × Any (λ m. EntityMapping.entity m ≡ entity) b.entities

Maps-iff :
    (b : OntologyBinding) (ontology_id entity : Text)
    → ((text_eq b.ontology_id ontology_id
          && any (λ m. text_eq (EntityMapping.entity m) entity) b.entities)
        ≡ true)
      ↔ Maps b ontology_id entity
Maps-iff b ontology_id entity =
    let named =
      any_of_iff (λ m. text_eq (EntityMapping.entity m) entity)
        (λ m. EntityMapping.entity m ≡ entity) b.entities
        (λ m. text_eq_iff (EntityMapping.entity m) entity) in
    and_of_iff _ _ _ _ (text_eq_iff b.ontology_id ontology_id) named

-- `e` is a query of the concept under the source's binding; without a binding there is none.
abbrev pub IsQueryOf :
    Option OntologyBinding → Text → Text → Option OntologyDefinition → SemanticEntry → Type 0
IsQueryOf none ontology_id entity d e = ⊥
IsQueryOf (some b) ontology_id entity d e = Maps b ontology_id entity × Concerns b entity d e

queries_in_iff :
    (o : Option OntologyBinding) (entries : List SemanticEntry) (ontology_id entity : Text)
    (d : Option OntologyDefinition) (e : SemanticEntry)
    → Has e (queries_in ontology_id entity d o entries)
      ↔ (Has e entries × IsQueryOf o ontology_id entity d e)
unfolding queries_in
queries_in_iff none entries ontology_id entity d e = ((λ h. absurd h), λ h. absurd h.1)
queries_in_iff (some b) entries ontology_id entity d e =
    let test : SemanticEntry → Bool = λ v.
      selected (own_refs ontology_id entity d b) (own_ids ontology_id entity d b) v
        (SemanticEntry.template v) in
    let kept = Has-filter test entries e in
    let chosen = selected_iff ontology_id entity d b e e.template in
    let maps = Maps-iff b ontology_id entity in
    elim (Bool-cases (
      text_eq b.ontology_id ontology_id
      && any (λ m. text_eq (EntityMapping.entity m) entity) b.entities)) [
        | inl bound ↦ rw bound (
          (λ h. ((kept.0 h).0, (maps.0 bound, chosen.0 (kept.0 h).1))),
          λ h. kept.1 (h.0, chosen.1 h.1.1),
        )
        | inr unbound ↦ rw unbound ((λ h. absurd h), λ h. cc (maps.1 h.1.0))
      ]

-- A concept lists exactly the entries of the snapshot that are queries of the concept: the source's
-- binding is to this ontology and maps the entity, the entry has a template, and either a mapping
-- of one of the entity's properties or relations names the entry as its query, or the template
-- refers to the entity, to one of its mapped properties or to one of its mapped relations.
pub concept_queries_iff :
    (s : SemanticSnapshot) (ontology_id entity : Text) (d : Option OntologyDefinition)
    (e : SemanticEntry)
    → Has e (concept_queries s ontology_id entity d)
      ↔ (Has e s.entries × IsQueryOf s.ontology ontology_id entity d e)
unfolding concept_queries
concept_queries_iff s ontology_id entity d e =
    queries_in_iff s.ontology s.entries ontology_id entity d e
