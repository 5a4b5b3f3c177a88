-- ===== src/Tracking/Rows.antt =====
-- The rows of the tracking table: `validateCoordinates` of
-- src/modules/tracking/tracking.normalization.ts, and the lookup of
-- src/modules/tracking/tracking.repository.ts.
use doot_backend.Base.{
  ℕ, ◌*◌, Bool, true, false, ◌&&◌, Option, none, some, String, List, [], ◌∷◌, leb, ◌==◌,
  if◌then◌else◌,
}
use text.Mathlib.Text.{◌==◌ as str_eq}
use doot_backend.Delivery.Tables.{Degrees, plus, minus, TrackingPoint}

-- `-limit <= x && x <= limit`, the limit in whole degrees
abbrev pub within : ℕ → Degrees → Bool
within limit (plus n) = leb n (limit * 10000000)
within limit (minus n) = leb n (limit * 10000000)

unfoldable pub validate_coordinates : Option Degrees → Option Degrees → Bool
validate_coordinates none none = true
validate_coordinates (some latitude) (some longitude) = within 90 latitude && within 180 longitude
validate_coordinates _ _ = false

abbrev pub same_text : Option String → String → Bool
same_text none k = false
same_text (some t) k = str_eq t k

abbrev pub find_event : ℕ → String → List TrackingPoint → Option TrackingPoint
find_event provider event [] = none
find_event provider event (p ∷ ps) =
    if p.provider_id == provider && same_text p.provider_event_id event
    then some p
    else find_event provider event ps

-- Whether every stored point has valid coordinates, or none.
abbrev pub all_placed : List TrackingPoint → Bool
all_placed [] = true
all_placed (p ∷ ps) = validate_coordinates p.latitude p.longitude && all_placed ps
