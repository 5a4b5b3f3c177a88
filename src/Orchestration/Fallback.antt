-- ===== src/Orchestration/Fallback.antt =====
-- The preferred tier of providers and the fallback tier:
-- src/modules/orchestration/orchestration.fallback-policy.ts, and the choice of the batches in
-- `runOrchestration` of src/modules/orchestration/orchestration.service.ts.
use mathlib.Core.List.{Perm, perm_middle}
use mathlib.Core.List.Perm
use text.Mathlib.Text.{◌==◌ as str_eq}
use doot_backend.Base.{
  ℕ, ◌≡◌, refl, inl, inr, Bool, true, false, not, ◌&&◌, Option, none, some, String, List, [], ◌∷◌,
  ◌++◌, any, if◌then◌else◌, Bool-cases,
}

pub data EvaluationStatus : Type 0 where
  evaluated eligible ineligible error skipped : EvaluationStatus

-- `ProviderEvaluationOutcome`, by what decides about the tiers.
pub record EvaluationOutcome : Type 0 where
  pub status : EvaluationStatus
  pub error_category : Option String

pub record Provider : Type 0 where
  pub id : ℕ
  pub code : String

-- `ORCHESTRATION_FAIL_FAST_ERROR_CATEGORIES`
abbrev pub fail_fast_categories : List String
fail_fast_categories =
    "PROVIDER_AUTHENTICATION_ERROR" ∷ "PROVIDER_AUTHORIZATION_ERROR" ∷ "PROVIDER_VALIDATION_ERROR"
    ∷ "PROVIDER_NOT_READY" ∷ "PROVIDER_DISABLED" ∷ []

unfoldable pub is_fail_fast_error : Option String → Bool
is_fail_fast_error none = false
is_fail_fast_error (some category) = any (λ c. str_eq c category) fail_fast_categories

pub record Tiers : Type 0 where
  pub use_tiered_evaluation : Bool
  pub preferred : List Provider
  pub fallback : List Provider

abbrev pub keep : (Provider → Bool) → List Provider → List Provider
keep p [] = []
keep p (x ∷ xs) = let rest = keep p xs in if p x then x ∷ rest else rest

abbrev is_nonempty : List Provider → Bool
is_nonempty [] = false
is_nonempty (_ ∷ _) = true

-- `upper` is `toUpperCase`; `wanted` is the configured code, trimmed and in upper case, where `none`
-- stands for a missing or empty one.
unfoldable pub partition_providers : (String → String) → List Provider → Option String → Tiers
partition_providers upper providers none = record {
  use_tiered_evaluation = false;
  preferred = [];
  fallback = providers;
}
partition_providers upper providers (some wanted) =
    let preferred = keep (λ p. str_eq (upper p.code) wanted) providers in
    record {
      use_tiered_evaluation = is_nonempty preferred;
      preferred = preferred;
      fallback = keep (λ p. not (str_eq (upper p.code) wanted)) providers;
    }

abbrev is_eligible : EvaluationStatus → Bool
is_eligible eligible = true
is_eligible _ = false

abbrev is_error : EvaluationStatus → Bool
is_error error = true
is_error _ = false

unfoldable pub has_eligible_outcomes : List EvaluationOutcome → Bool
has_eligible_outcomes = any (λ o. is_eligible o.status)

unfoldable pub has_fail_fast_error : List EvaluationOutcome → Bool
has_fail_fast_error = any (λ o. is_error o.status && is_fail_fast_error o.error_category)

unfoldable pub should_run_fallback_tier : Bool → List EvaluationOutcome → Bool
should_run_fallback_tier use_tiered outcomes =
    if not use_tiered
    then false
    else if has_eligible_outcomes outcomes
    then false
    else not (has_fail_fast_error outcomes)

pub record TierRun : Type 0 where
  pub outcomes : List EvaluationOutcome
  pub providers : List Provider

abbrev pub evaluate_batch :
    (Provider → List EvaluationOutcome) → List Provider → List EvaluationOutcome
evaluate_batch evaluate [] = []
evaluate_batch evaluate (p ∷ ps) = evaluate p ++ evaluate_batch evaluate ps

-- The batches that `runOrchestration` evaluates, and the providers that it has asked.
unfoldable pub run_tiers : (Provider → List EvaluationOutcome) → List Provider → Tiers → TierRun
run_tiers evaluate providers tiers =
    let first = evaluate_batch evaluate tiers.preferred in
    if tiers.use_tiered_evaluation
    then if should_run_fallback_tier true first
      then record {
        outcomes = first ++ evaluate_batch evaluate tiers.fallback;
        providers = tiers.preferred ++ tiers.fallback;
      }
      else record { outcomes = first; providers = tiers.preferred }
    else record { outcomes = evaluate_batch evaluate tiers.fallback; providers = providers }

keep-split :
    (p : Provider → Bool) (xs : List Provider) → Perm (keep p xs ++ keep (λ x. not (p x)) xs) xs
keep-split p [] = Perm.refl []
keep-split p (x ∷ xs) = elim (Bool-cases (p x)) [
  | inl hit ↦ rw hit (Perm.cons x (keep-split p xs))
  | inr miss ↦ rw miss (
      Perm.trans (perm_middle (keep p xs) (keep (λ y. not (p y)) xs))
        (Perm.cons x (keep-split p xs)))
]

-- Whatever provider is preferred, the two tiers together are the candidates, each once.
partition-Perm :
    (upper : String → String) (providers : List Provider) (wanted : Option String)
    → Perm
        ((partition_providers upper providers wanted).preferred
          ++ (partition_providers upper providers wanted).fallback)
        providers
unfolding partition_providers
partition-Perm upper providers none = Perm.refl providers
partition-Perm upper providers (some wanted) =
    keep-split (λ p. str_eq (upper p.code) wanted) providers

-- Where no outcome of the preferred tier is eligible, and none is an error that must not be worked
-- around, the providers that the evaluation takes account of are all the candidates, each once.
run_tiers-all :
    (evaluate : Provider → List EvaluationOutcome) (upper : String → String)
    (providers : List Provider) (wanted : Option String)
    → has_eligible_outcomes
        (evaluate_batch evaluate (partition_providers upper providers wanted).preferred)
      ≡ false
    → has_fail_fast_error
        (evaluate_batch evaluate (partition_providers upper providers wanted).preferred)
      ≡ false
    → Perm
        (run_tiers evaluate providers (partition_providers upper providers wanted)).providers
        providers
unfolding run_tiers should_run_fallback_tier
run_tiers-all evaluate upper providers wanted none_eligible no_failure =
    elim (Bool-cases ((partition_providers upper providers wanted).use_tiered_evaluation)) [
      | inl tiered ↦ rw (tiered, none_eligible, no_failure) (partition-Perm upper providers wanted)
      | inr flat ↦ rw flat (Perm.refl providers)
    ]
