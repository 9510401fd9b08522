-- ===== src/Json/Tests.antt =====
-- The refusal of sensitive keys at a concrete payload.
use social_pilot_ai.Base.{◌≡◌, ◌↔◌, refl, false, codes}
use social_pilot_ai.Json.{null, object, Fields, end, field, accepts_fields}
use social_pilot_ai.Json.Sensitive.{HasKeyFields, IsSensitive, accepts_fields-eq-false_iff}

-- `{"options": {"API-Key": null}}`
abbrev payload : Fields
payload = field (codes "options") (object (field (codes "API-Key") null end)) end

accepts_fields-eq-false_iff_example :
    (accepts_fields payload ≡ false) ↔ HasKeyFields IsSensitive payload
accepts_fields-eq-false_iff_example = accepts_fields-eq-false_iff payload

payload_refused : accepts_fields payload ≡ false
unfolding accepts_fields
payload_refused = refl
