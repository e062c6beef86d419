-- ===== src/Draft/Page/Revisions.antt =====
-- The revision that a save names, and when one is sent.
use context_gate.Base.{◌≡◌, ◌⊎◌, Bool, true, false, ◌∷◌, none, some}
use context_gate.Draft.Page.{DraftPage, saving}
use context_gate.Draft.Page.Quiet.{puts, Quiet}
use context_gate.Semantics.{SemanticEntry, SemanticState}

-- Where the revision comes from that the next save will name.
abbrev pub Learned : DraftPage → DraftPage → Type 0
Learned before after =
    (after.expected ≡ before.expected)
    ⊎ ((state : SemanticState) × (after.expected ≡ SemanticState.revision state)
        × (((finish : Bool) × (value : SemanticEntry) × (before.pending
                ≡ some (saving finish value))
              × (after.form ≡ value)
              × (after.baseline ≡ value))
            ⊎ ((before.conflict ≡ true)
                × (before.latest ≡ some state)
                × (after.form ≡ before.form))))

-- What a step sends to be saved: nothing, or one entry.
abbrev pub SendsOnce : DraftPage → DraftPage → Type 0
SendsOnce before after =
    (puts (after.sent) ≡ puts (before.sent))
    ⊎ ((before.pending ≡ none)
        × (before.conflict ≡ false)
        × ((value : SemanticEntry) × (puts (after.sent)
              ≡ (before.expected, value) ∷ puts (before.sent))))

pub record Lawful (before after : DraftPage) : Type 0 where
  pub learned : Learned before after
  pub sends : SendsOnce before after
