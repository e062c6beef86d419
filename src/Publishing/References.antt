-- ===== src/Publishing/References.antt =====
-- Which stored values are references to a query.
use context_gate.Base.{
  ℕ, ◌≤◌, ◌≡◌, ◌≢◌, refl, inl, inr, Text, codes, true, [], ◌∷◌, Option, none, some, arith, leb,
  leb→le, length, text_eq, Option-cases,
}
use context_gate.Json.{Json, str, member}
use context_gate.Publishing.{QueryJourney, short_text, checked, journey_references, journey_json}

-- A reference that may be resumed: it names a source and a query, and all its ids are short.
pub record IsReference (r : QueryJourney) : Type 0 where
  pub has_source : r.source_id ≢ []
  pub has_template : r.template_id ≢ []
  pub short_source : length r.source_id ≤ 256
  pub short_template : length r.template_id ≤ 256
  pub short_agent : length r.agent_id ≤ 256

short_text-short : (o : Option Json) (s : Text) → short_text o ≡ some s → length s ≤ 256
unfolding short_text
short_text-short (some (str t)) s h = ground (arith, leb→le (length t) 256)
short_text-short none s h = cc
short_text-short (some _) s h = cc

checked-IsReference :
    (a b c : Option Text) (r : QueryJourney)
    → ((s : Text) → a ≡ some s → length s ≤ 256)
    → ((s : Text) → b ≡ some s → length s ≤ 256)
    → ((s : Text) → c ≡ some s → length s ≤ 256)
    → checked a b c ≡ some r
    → IsReference r
unfolding checked
checked-IsReference (some (s ∷ ss)) (some (t ∷ ts)) (some a) r ha hb hc h =
    ground (arith, ha (s ∷ ss) refl, hb (t ∷ ts) refl, hc a refl)
checked-IsReference none b c r ha hb hc h = cc
checked-IsReference (some []) b c r ha hb hc h = cc
checked-IsReference (some (s ∷ ss)) none c r ha hb hc h = cc
checked-IsReference (some (s ∷ ss)) (some []) c r ha hb hc h = cc
checked-IsReference (some (s ∷ ss)) (some (t ∷ ts)) none r ha hb hc h = cc

pub journey_references-IsReference :
    (v : Json) (r : QueryJourney) → journey_references v ≡ some r → IsReference r
unfolding journey_references
journey_references-IsReference v r h =
    checked-IsReference (short_text (member v (codes "source_id")))
      (short_text (member v (codes "template_id"))) (short_text (member v (codes "agent_id"))) r
      (short_text-short (member v (codes "source_id")))
      (short_text-short (member v (codes "template_id")))
      (short_text-short (member v (codes "agent_id"))) h

leb_of_le : (a b : ℕ) → a ≤ b → leb a b ≡ true
leb_of_le a b h = ground arith

checked_lem :
    (a b c : Text)
    → a ≢ []
    → b ≢ []
    → checked (some a) (some b) (some c)
      ≡ some (record { source_id = a; template_id = b; agent_id = c })
unfolding checked
checked_lem [] b c ha hb = absurd (ha refl)
checked_lem (x ∷ a) [] c ha hb = absurd (hb refl)
checked_lem (x ∷ a) (y ∷ b) c ha hb = refl

short_text_lem : (s : Text) → length s ≤ 256 → short_text (some (str s)) ≡ some s
unfolding short_text
short_text_lem s h = rw (leb_of_le _ _ h)

-- What `JSON.stringify` writes for a reference is read back as that reference.
pub journey_references-journey_json :
    (r : QueryJourney) → IsReference r → journey_references (journey_json r) ≡ some r
unfolding journey_references journey_json text_eq
journey_references-journey_json r h =
    rw
      (
        short_text_lem r.source_id h.short_source,
        short_text_lem r.template_id h.short_template,
        short_text_lem r.agent_id h.short_agent,
      )
      (checked_lem r.source_id r.template_id r.agent_id h.has_source h.has_template)

checked_accepted :
    (a b c : Text) (r : QueryJourney)
    → checked (short_text (some (str a))) (short_text (some (str b))) (short_text (some (str c)))
      ≡ some r
    → IsReference (record { source_id = a; template_id = b; agent_id = c })
unfolding checked short_text
checked_accepted [] b c r e = ground arith
checked_accepted (x ∷ a) [] c r e = ground arith
checked_accepted (x ∷ a) (y ∷ b) c r e =
    ground (arith, leb→le (length (x ∷ a)) 256, leb→le (length (y ∷ b)) 256, leb→le (length c) 256)

pub journey_references_refused :
    (r : QueryJourney) → ¬ IsReference r → journey_references (journey_json r) ≡ none
unfolding journey_references journey_json text_eq
journey_references_refused r h = elim (Option-cases (journey_references (journey_json r))) [
  | inl e ↦ e
  | inr (found, e) ↦ absurd (h (checked_accepted r.source_id r.template_id r.agent_id found e))
]
