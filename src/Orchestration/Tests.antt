-- ===== src/Orchestration/Tests.antt =====
-- Runs of the tiers, and instances of what is shown of them.
use text.Mathlib.Text.{◌==◌ as str_eq}
use doot_backend.Base.{◌≡◌, none, some, String, List, [], ◌∷◌, true, false, ◌↔◌, if◌then◌else◌}
use doot_backend.Orchestration.Fallback.{EvaluationStatus, EvaluationOutcome, Provider}
use doot_backend.Orchestration.Compatibility.{Capacity, Parcel, evaluate_pre_adapter_compatibility}
use doot_backend.Orchestration.Suitability.{exclusion_reasons_iff, Suits}

abbrev mock : Provider
mock = record { id = 1; code = "MOCK" }

abbrev shiprocket : Provider
shiprocket = record { id = 2; code = "SHIPROCKET" }

abbrev providers : List Provider
providers = mock ∷ shiprocket ∷ []

abbrev same : String → String
same s = s

-- The mock is eligible, the other times out.
abbrev evaluate : Provider → List EvaluationOutcome
evaluate p =
    if str_eq p.code "MOCK"
    then record { status = EvaluationStatus.eligible; error_category = none } ∷ []
    else record { status = EvaluationStatus.error; error_category = some "PROVIDER_TIMEOUT" } ∷ []

-- Up to twenty kilograms, by motorcycles that take eight.
abbrev courier : Capacity
courier = record {
  package_limits = some (record {
    max_weight = some 20000;
    min_weight = some 100;
    supported_package_types = "DOCUMENT" ∷ "ELECTRONICS" ∷ [];
    max_length = some 6000;
    max_width = none;
    max_height = none;
  });
  vehicles = record { enabled = true; max_weight = some 8000 } ∷ [];
  services = [];
}

abbrev laptop : Parcel
laptop = record {
  weight = 2500;
  package_type = "ELECTRONICS";
  length = some 4000;
  width = some 3000;
  height = some 500;
  scheduled = false;
}

exclusion_reasons_iff_example :
    ((evaluate_pre_adapter_compatibility courier laptop).exclusion_reasons ≡ [])
    ↔ Suits courier laptop
exclusion_reasons_iff_example = exclusion_reasons_iff courier laptop
