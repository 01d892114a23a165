-- ===== src/Examples/Audit.antt =====
-- Details with secrets among them.
use native.Mathlib.Decide.{ℕ_discrete}
use karmevo_erp.Platform.Audit.{
  Fields, text, other, items, mapping, nil, item, end, field, redacted, occurs, is_sensitive,
  redact, success, Entry, add_event, event_of, record_event,
}
use karmevo_erp.Platform.Audit.Masking.{IsMasked, redact_iff}
use karmevo_erp.Platform.Audit.Paths.{Place, key, index, get_in, view, get_in-redact}
use karmevo_erp.Platform.Audit.Trail.{IsSound, record_event-IsSound}
use karmevo_erp.Platform.Registry.{Uuid, tenant_session, is_context}
use karmevo_erp.Prelude.{
  ℕ, String, List, [], ◌∷◌, ◌++◌, none, some, ◌≡◌, ◌↔◌, refl, ok, any, starts_with, true,
}

-- Lower-case keys are their own lower case.
abbrev same : String → String
same s = s

abbrev details : Fields ℕ
details = field "user" (text "ann") (
    field "api_token" (text "x1") (
      field "rows"
        (items (item (mapping (field "salary" (other 5) (field "name" (text "bob") end))) nil))
        end))

redact_example :
    redact same (mapping details)
    ≡ mapping (
        field "user" (text "ann") (
          field "api_token" (text redacted) (
            field "rows"
              (items (
                item
                  (mapping (field "salary" (text redacted) (field "name" (text "bob") end)))
                  nil))
              end)))
unfolding redact is_sensitive any occurs starts_with ℕ_discrete
redact_example = refl

redact_iff_example :
    IsMasked same (redact same (mapping details))
    × ((redact same (mapping details) ≡ mapping details) ↔ IsMasked same (mapping details))
redact_iff_example = redact_iff same (mapping details)

abbrev place : List Place
place = key "rows" ∷ index 0 ∷ key "salary" ∷ []

get_in-redact_example :
    get_in place (redact same (mapping details)) ≡ view same place (mapping details)
get_in-redact_example = get_in-redact same place (mapping details)

abbrev entry : Entry ℕ
entry = record {
  tenant_id = 7;
  actor_identity_id = some 3;
  action = "login";
  target_type = "session";
  target_id = none;
  outcome = success;
  reason = none;
  details = some details;
}

recorded :
    record_event same 1 0 (tenant_session 7) 7 entry [] ≡ ok (1, event_of same 1 0 entry ∷ [])
unfolding record_event add_event event_of any ℕ_discrete
recorded = refl

record_event-IsSound_example :
    IsSound same 7 (event_of same 1 0 entry ∷ [])
    × ◌≡◌ {A = Uuid} 1 1
    × (is_context (some 7) 7 ≡ true)
    × (event_of same 1 0 entry ∷ [] ≡ [] ++ event_of same 1 0 entry ∷ [])
record_event-IsSound_example =
    record_event-IsSound same 1 0 (tenant_session 7) 7 entry []
      (record { belong = tt; all_masked = tt; distinct = tt }) recorded
