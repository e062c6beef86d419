-- ===== src/Layout.antt =====
-- web/src/ontology-graph-layout.ts: where the graph editor puts entity types. Coordinates are
-- integers here, as all those that the code makes up are; `Positions` is the list of an object's
-- members. Curves (`edgeRoute`) and the fit to the window divide, and are not modelled.
pub mod Arrange
pub mod Place
pub mod Placement
pub mod Tests
use context_gate.Base.{
  ℕ, zero, suc, ◌+◌, ◌*◌, ◌/◌, ◌%◌, ◌≤◌, Text, codes, Bool, true, false, not, ◌&&◌, List, [], ◌∷◌,
  Option, none, some, if◌then◌else◌, leb, length, take, filter, text_eq,
}
use context_gate.Base.Int.{ℤ, pos, negsuc, ◌+ℤ◌, ◌-ℤ◌, ltb_ℤ}
use context_gate.Ontology.{EntityType}

pub record Point : Type 0 where
  pub x : ℤ
  pub y : ℤ

abbrev pub Positions : Type 0
Positions = List (Text × Point)

abbrev pub node_width : ℕ
node_width = 248

abbrev pub node_height : ℕ
node_height = 230

-- `positions[id]`, with `undefined` where `Object.hasOwn` is false
unfoldable pub position_of : Positions → Text → Option Point
position_of [] id = none
position_of ((k, p) ∷ ps) id = elim (text_eq k id) [ true ↦ some p | false ↦ position_of ps id ]

-- `{ ...positions, [id]: p }`
unfoldable pub put : Positions → Text → Point → Positions
put [] id p = (id, p) ∷ []
put ((k, q) ∷ ps) id p = elim (text_eq k id) [ true ↦ (k, p) ∷ ps | false ↦ (k, q) ∷ put ps id p ]

-- `Object.fromEntries`
unfoldable pub from_entries : Positions → List (Text × Point) → Positions
from_entries ps [] = ps
from_entries ps ((k, p) ∷ es) = from_entries (put ps k p) es

-- `Math.ceil(Math.sqrt(n))`: the first `c` from here on whose square is not below `n`.
unfoldable pub ceil_sqrt_from : ℕ → ℕ → ℕ → ℕ
ceil_sqrt_from zero c n = c
ceil_sqrt_from (suc fuel) c n =
    let more = ceil_sqrt_from fuel (c + 1) n in if leb n (c * c) then c else more

unfoldable pub ceil_sqrt : ℕ → ℕ
ceil_sqrt n = ceil_sqrt_from n 0 n

-- `Math.max(1, …)`
unfoldable pub column_count : ℕ → ℕ
column_count n = let c = ceil_sqrt n in if leb 1 c then c else 1

unfoldable pub cell : ℕ → ℕ → Point
cell columns index = record {
  x = pos ((index % columns) * (node_width + 190));
  y = pos ((index / columns) * (node_height + 140));
}

-- The entries from `index` on.
unfoldable pub cells : ℕ → ℕ → List EntityType → List (Text × Point)
cells columns index [] = []
cells columns index (e ∷ es) = (e.id, cell columns index) ∷ cells columns (index + 1) es

unfoldable pub arrange_entities : List EntityType → Positions
arrange_entities es = from_entries [] (cells (column_count (length es)) 0 es)

abbrev is_some : Option Point → Bool
is_some none = false
is_some (some _) = true

-- The saved positions of the entities that have one.
abbrev with_point : Option Point → List Point → List Point
with_point none ps = ps
with_point (some p) ps = p ∷ ps

unfoldable pub known_points : Positions → List EntityType → List Point
known_points saved [] = []
known_points saved (e ∷ es) = with_point (position_of saved e.id) (known_points saved es)

unfoldable pub missing_entities : Positions → List EntityType → List EntityType
missing_entities saved es = filter (λ e. not (is_some (position_of saved (EntityType.id e)))) es

-- `Math.max(...ys)` over a first point and the rest
unfoldable pub lowest : ℤ → List Point → ℤ
lowest y [] = y
lowest y (p ∷ ps) = lowest (if ltb_ℤ y p.y then p.y else y) ps

-- The saved position, or the arranged one moved down; `none` is a read of `undefined.x`.
abbrev settle : ℤ → Option Point → Option Point → Option Point
settle bottom (some p) extra = some p
settle bottom none none = none
settle bottom none (some q) = some (record { x = q.x; y = q.y +ℤ bottom })

abbrev add_entry : Text → Option Point → Option Positions → Option Positions
add_entry id none rest = none
add_entry id (some p) none = none
add_entry id (some p) (some ps) = some ((id, p) ∷ ps)

unfoldable pub settled : Positions → Positions → ℤ → List EntityType → Option (List (Text × Point))
settled saved extra bottom [] = some []
settled saved extra bottom (e ∷ es) =
    add_entry e.id (settle bottom (position_of saved e.id) (position_of extra e.id))
      (settled saved extra bottom es)

abbrev collected : Option (List (Text × Point)) → Option Positions
collected none = none
collected (some es) = some (from_entries [] es)

-- The branch on `known.length`.
positions_below : List Point → List EntityType → Positions → Option Positions
positions_below [] es saved = some (arrange_entities es)
positions_below (p ∷ ps) es saved =
    let extra = arrange_entities (missing_entities saved es) in
    let bottom = lowest p.y ps +ℤ pos (node_height + 140) in
    collected (settled saved extra bottom es)

unfoldable pub entity_positions : List EntityType → Positions → Option Positions
unfolding positions_below
entity_positions es saved = positions_below (known_points saved es) es saved

-- `boundedPoint` of web/src/OntologyGraph.tsx
unfoldable pub clamp_coordinate : ℤ → ℤ
clamp_coordinate v =
    let high = if ltb_ℤ v (pos 100000) then v else pos 100000 in
    if ltb_ℤ (negsuc 99999) high then high else negsuc 99999

unfoldable pub bounded_point : Point → Point
bounded_point p = record { x = clamp_coordinate p.x; y = clamp_coordinate p.y }

-- The two tests of `readPositions` on a finite point.
unfoldable pub in_bounds : Point → Bool
in_bounds p =
    not (ltb_ℤ (pos 100000) p.x)
    && (not (ltb_ℤ p.x (negsuc 99999))
        && (not (ltb_ℤ (pos 100000) p.y) && not (ltb_ℤ p.y (negsuc 99999))))

-- `readPositions` on the members of a stored object whose values are finite points.
unfoldable pub read_positions : Positions → Positions
read_positions stored = filter (λ e. in_bounds e.1) (take 500 stored)

-- `arrowDelta`
unfoldable pub arrow_delta : Text → ℤ → Option Point
arrow_delta key step =
    if text_eq key (codes "ArrowLeft")
    then some (record { x = pos 0 -ℤ step; y = pos 0 })
    else if text_eq key (codes "ArrowRight")
    then some (record { x = step; y = pos 0 })
    else if text_eq key (codes "ArrowUp")
    then some (record { x = pos 0; y = pos 0 -ℤ step })
    else if text_eq key (codes "ArrowDown")
    then some (record { x = pos 0; y = step })
    else none
