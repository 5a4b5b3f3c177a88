-- ===== src/Orchestration/Compatibility.antt =====
-- Whether a parcel suits a provider, before the provider is asked: `evaluatePreAdapterCompatibility` of
-- src/modules/orchestration/orchestration.eligibility.ts. Weights are grams and lengths are hundredths
-- of a centimetre, the steps of their columns. The test of `DIMENSIONS_REQUIRED_ABOVE_KG` is left out:
-- what it guards is done for a parcel with dimensions only, which pass it anyway.
use text.Mathlib.Text.{◌==◌ as str_eq}
use doot_backend.Base.{
  ℕ, Bool, true, false, not, ◌&&◌, ◌||◌, Option, none, some, is_some, String, List, [], ◌∷◌, ◌++◌,
  any, ltb, if◌then◌else◌,
}

pub data ExclusionReason : Type 0 where
  weight_exceeds_provider_limit weight_below_provider_minimum dimensions_exceed_provider_limit
        package_type_not_supported schedule_not_supported :
      ExclusionReason

pub record PackageLimits : Type 0 where
  pub max_weight : Option ℕ
  pub min_weight : Option ℕ
  pub supported_package_types : List String
  pub max_length : Option ℕ
  pub max_width : Option ℕ
  pub max_height : Option ℕ

pub record Vehicle : Type 0 where
  pub enabled : Bool
  pub max_weight : Option ℕ

pub record ProviderService : Type 0 where
  pub enabled : Bool
  pub service_type : String

-- What a provider takes; one without limits has `none`.
pub record Capacity : Type 0 where
  pub package_limits : Option PackageLimits
  pub vehicles : List Vehicle
  pub services : List ProviderService

pub record Parcel : Type 0 where
  pub weight : ℕ
  pub package_type : String
  pub length : Option ℕ
  pub width : Option ℕ
  pub height : Option ℕ
  pub scheduled : Bool

pub record Compatibility : Type 0 where
  pub weight_compatible : Bool
  pub dimensions_compatible : Bool
  pub requirements_compatible : Bool
  pub schedule_compatible : Bool
  pub exclusion_reasons : List ExclusionReason

-- `SCHEDULED_SERVICE_TYPES`
abbrev pub scheduled_service_types : List String
scheduled_service_types = "SCHEDULED" ∷ "EXPRESS" ∷ "SAME_DAY" ∷ []

abbrev pub is_over : Option ℕ → ℕ → Bool
is_over none x = false
is_over (some limit) x = ltb limit x

abbrev pub is_under : Option ℕ → ℕ → Bool
is_under none x = false
is_under (some limit) x = ltb x limit

abbrev pub limit_of : (PackageLimits → Option ℕ) → Option PackageLimits → Option ℕ
limit_of f none = none
limit_of f (some limits) = f limits

abbrev pub types_of : Option PackageLimits → List String
types_of none = []
types_of (some limits) = limits.supported_package_types

abbrev pub is_too_heavy : Capacity → Parcel → Bool
is_too_heavy c p = is_over (limit_of (λ l. l.max_weight) c.package_limits) p.weight

abbrev pub is_too_light : Capacity → Parcel → Bool
is_too_light c p = is_under (limit_of (λ l. l.min_weight) c.package_limits) p.weight

-- There are vehicles in service, and the parcel is too heavy for each of them.
abbrev pub fits_no_vehicle : Capacity → Parcel → Bool
fits_no_vehicle c p =
    any (λ v. v.enabled) c.vehicles
    && not (any (λ v. v.enabled && not (is_over v.max_weight p.weight)) c.vehicles)

abbrev pub is_type_refused : Capacity → Parcel → Bool
is_type_refused c p =
    any (λ t. true) (types_of c.package_limits)
    && not (any (λ t. str_eq t p.package_type) (types_of c.package_limits))

-- One length against its limit.
abbrev pub is_over_length : Option ℕ → Option ℕ → Bool
is_over_length limit none = false
is_over_length limit (some x) = is_over limit x

abbrev pub is_too_big : Capacity → Parcel → Bool
is_too_big c p =
    (is_some p.length && is_some p.width && is_some p.height)
    && (is_over_length (limit_of (λ l. l.max_length) c.package_limits) p.length
        || is_over_length (limit_of (λ l. l.max_width) c.package_limits) p.width
        || is_over_length (limit_of (λ l. l.max_height) c.package_limits) p.height)

-- The delivery is scheduled, and none of the services on offer is for a schedule.
abbrev pub is_schedule_refused : Capacity → Parcel → Bool
is_schedule_refused c p =
    p.scheduled
    && (not (
          any (λ s. s.enabled && any (λ t. str_eq t s.service_type) scheduled_service_types)
            c.services)
        && any (λ s. s.enabled) c.services)

abbrev pub reason_if : Bool → ExclusionReason → List ExclusionReason
reason_if b reason = if b then reason ∷ [] else []

unfoldable pub evaluate_pre_adapter_compatibility : Capacity → Parcel → Compatibility
evaluate_pre_adapter_compatibility c p =
    let heavy = is_too_heavy c p in
    let light = is_too_light c p in
    let unfit = not (heavy || light) && fits_no_vehicle c p in
    record {
      weight_compatible = not (heavy || light || unfit);
      dimensions_compatible = not (is_too_big c p);
      requirements_compatible = not (is_type_refused c p);
      schedule_compatible = not (is_schedule_refused c p);
      exclusion_reasons =
          reason_if heavy weight_exceeds_provider_limit
          ++ reason_if light weight_below_provider_minimum
          ++ reason_if unfit weight_exceeds_provider_limit
          ++ reason_if (is_type_refused c p) package_type_not_supported
          ++ reason_if (is_too_big c p) dimensions_exceed_provider_limit
          ++ reason_if (is_schedule_refused c p) schedule_not_supported;
    }
