-- ===== src/Concepts/Laws.antt =====
-- The references of the mapped concepts, and whose property a mapped property is.
use mathlib.Core.List.{map-append}
use context_gate.Base.{
  Text, ◌≡◌, refl, inl, inr, Bool, true, ◌&&◌, List, [], ◌∷◌, map, Option, none, some, arith, find,
  All, Has, text_eq, text_eq_iff, includes, includes_iff, find-eq-some, find-eq-none, Option-cases,
}
use context_gate.Ontology.{
  OntologyDefinition, Property, PropertyMapping, OntologyBinding, concept_refs,
}
use context_gate.Ontology.Lineage.{IsLineage, effective_entities-IsLineage}
use context_gate.Concepts.{BusinessConcept, mapped_concepts, find_property}

map-map_of :
    {A B C : Type 0} (g : B → C) (f : A → B) (h : A → C)
    → ((a : A) → g (f a) ≡ h a)
    → (xs : List A) → map g (map f xs) ≡ map h xs
map-map_of g f h e [] = refl
map-map_of g f h e (x ∷ xs) = cc (e x, map-map_of g f h e xs)

-- The concepts shown for a binding carry exactly the references of `conceptRefs`, in its order.
pub map-mapped_concepts :
    (b : OntologyBinding) (d : OntologyDefinition)
    → map (λ c. BusinessConcept.ref c) (mapped_concepts b d) ≡ concept_refs (some b)
unfolding mapped_concepts concept_refs
map-mapped_concepts b d = simp (
  map-append,
  map-map_of (λ c. BusinessConcept.ref c) _ _ (λ m. refl) b.entities,
  map-map_of (λ c. BusinessConcept.ref c) _ _ (λ m. refl) b.properties,
  map-map_of (λ c. BusinessConcept.ref c) _ _ (λ m. refl) b.relations,
)

-- What the property of a mapping may be: the definition's property with the mapped id that a member
-- of `chain` owns, or nothing, if there is none.
abbrev pub IsOwned : OntologyDefinition → PropertyMapping → List Text → Option Property → Type 0
IsOwned d m chain none =
    All (λ p. Property.id p ≡ m.property → ¬ Has (Property.entity p) chain) d.properties
IsOwned d m chain (some p) = Has p d.properties × (p.id ≡ m.property) × Has p.entity chain

All-map_imp :
    {A : Type 0} (P Q : A → Type 0) (xs : List A) → ((a : A) → P a → Q a) → All P xs → All Q xs
All-map_imp P Q [] f h = tt
All-map_imp P Q (x ∷ xs) f (p, h) = (f x p, All-map_imp P Q xs f h)

missed_test :
    (a b c : Text) (chain : List Text)
    → a ≡ b
    → Has c chain
    → (text_eq a b && includes chain c) ≡ true
missed_test a b c chain same at = ground (arith, text_eq_iff a b, includes_iff chain c)

passed_test :
    (a b c : Text) (chain : List Text)
    → (text_eq a b && includes chain c) ≡ true
    → (a ≡ b) × Has c chain
passed_test a b c chain h = ground (arith, text_eq_iff a b, includes_iff chain c)

-- A mapped property is looked up in the lineage of the mapped entity: what is found has the mapped
-- id and belongs to the entity or an ancestor, and nothing is found only if no such property exists.
pub find_property-IsOwned :
    (d : OntologyDefinition) (m : PropertyMapping)
    → (chain : List Text) × IsLineage d m.entity chain × IsOwned d m chain (find_property d m)
unfolding find_property
find_property-IsOwned d m =
    let (chain, e, lineage) = effective_entities-IsLineage d m.entity in
    let test : Property → Bool =
      λ p. text_eq (Property.id p) m.property && includes chain (Property.entity p) in
    (
      chain,
      lineage,
      rw e (elim (Option-cases (find test d.properties)) [
        | inl missed ↦ rw missed (
            All-map_imp _ _ d.properties
              (λ p h same at. cc (missed_test p.id m.property p.entity chain same at, h))
              (find-eq-none test d.properties missed))
        | inr (p, found) ↦ rw found (
            let (at, both) = find-eq-some test d.properties p found in
            (let (same, owned) = passed_test p.id m.property p.entity chain both in
              (at, same, owned)))
      ]),
    )
