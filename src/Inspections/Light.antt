-- ===== src/Inspections/Light.antt =====
-- The traffic light of a response (src/common/utils/traffic-light.ts) and the summary of an inspection
-- (`findOne` of src/inspections/inspections.service.ts).
use superflow_api.Base.{
  Bool, true, false, not, ◌&&◌, Option, none, some, List, [], ◌∷◌, if◌then◌else◌, find_first,
  or_else,
}
use superflow_api.Base.Text.{Text, codes, same_text, trim, to_lower}
use superflow_api.Base.Trim.{is_none}
use superflow_api.Inspections.Types.{
  InputType, photo, odometer, fuel_level, free_text, Urgency, no_urgency, low, medium, high,
  critical,
}

pub data Light : Type 0 where
  green amber red no_light : Light

-- `isInformationalInputType`
abbrev pub is_informational : InputType → Bool
is_informational photo = true
is_informational odometer = true
is_informational fuel_level = true
is_informational free_text = true
is_informational _ = false

-- The types of a reading, which is green once it is there
abbrev is_reading : InputType → Bool
is_reading odometer = true
is_reading fuel_level = true
is_reading _ = false

-- `INSPECTION_VALUE_TO_TRAFFIC_LIGHT`
abbrev value_lights : List (Text × Light)
value_lights =
    (codes "pass", green)
    ∷ (codes "yes", green)
    ∷ (codes "ok", green)
    ∷ (codes "warn", amber)
    ∷ (codes "fail", red)
    ∷ (codes "no", red)
    ∷ []

-- `INSPECTION_URGENCY_TO_TRAFFIC_LIGHT`
abbrev urgency_light : Urgency → Option Light
urgency_light no_urgency = none
urgency_light low = some green
urgency_light medium = some amber
urgency_light high = some red
urgency_light critical = some red

abbrev normalized : Option Text → Text
normalized value = to_lower (trim (or_else value []))

abbrev light_or : Option (Text × Light) → Option Light → Light → Light
light_or (some (_, light)) _ _ = light
light_or none (some light) _ = light
light_or none none default = default

-- `inspectionTrafficLight`, of an item of a known type
unfoldable pub traffic_light : Option Text → Urgency → InputType → Light
traffic_light value urgency input =
    let text = normalized value in
    let known = find_first (λ row. same_text row.0 text) value_lights in
    if is_reading input && not (is_none text)
    then green
    else if is_informational input
    then no_light
    else light_or known (urgency_light urgency) (if is_none text then no_light else green)
