-- ===== src/Orchestration/Suitability.antt =====
-- What `evaluatePreAdapterCompatibility` of src/modules/orchestration/orchestration.eligibility.ts asks
-- of a parcel, said without its tests.
use text.Mathlib.Text.{◌==◌ as str_eq}
use text.Mathlib.TextEquality.{eq_iff}
use doot_backend.Base.{
  ℕ, ◌≤◌, ◌≡◌, ◌↔◌, ◌⊎◌, inl, inr, refl, sym, Bool, true, false, not, ◌&&◌, ◌||◌, Option, none,
  some, is_some, String, List, [], ◌∷◌, ◌++◌, arith, any, Bool-cases,
}
use doot_backend.Orchestration.Compatibility.{
  weight_exceeds_provider_limit, weight_below_provider_minimum, dimensions_exceed_provider_limit,
  package_type_not_supported, schedule_not_supported, PackageLimits, Vehicle, ProviderService,
  Capacity, Parcel, scheduled_service_types, is_over, is_under, limit_of, types_of, is_too_heavy,
  is_too_light, fits_no_vehicle, is_type_refused, is_over_length, is_too_big, is_schedule_refused,
  reason_if, evaluate_pre_adapter_compatibility,
}

-- One of the list has the property.
pub data HasOne {A : Type 0} (P : A → Type 0) : List A → Type 0 where
  first : {x : A} {xs : List A} → P x → HasOne P (x ∷ xs)
  later : {x : A} {xs : List A} → HasOne P xs → HasOne P (x ∷ xs)

module _ {A : Type 0} (P : A → Type 0) (p : A → Bool) where
  any-HasOne : ((x : A) → p x ≡ true → P x) → (xs : List A) → any p xs ≡ true → HasOne P xs
  any-HasOne sound [] h = cc h
  any-HasOne sound (x ∷ xs) h = elim (Bool-cases (p x)) [
    | inl hit ↦ first (sound x hit)
    | inr miss ↦ later (any-HasOne sound xs (ground (arith, miss, h)))
  ]

  HasOne-any : ((x : A) → P x → p x ≡ true) → {xs : List A} → HasOne P xs → any p xs ≡ true
  HasOne-any complete (first {x} h) = rw (complete x h) refl
  HasOne-any complete (later {x} {xs} h) =
      let rest = HasOne-any complete {xs = xs} h in ground (arith, rest)

abbrev pub AtMost : Option ℕ → ℕ → Type 0
AtMost none x = Unit
AtMost (some limit) x = x ≤ limit

abbrev pub AtLeast : Option ℕ → ℕ → Type 0
AtLeast none x = Unit
AtLeast (some limit) x = limit ≤ x

-- The lengths of a measured parcel, each within its limit; others are not compared.
abbrev pub FitsLimits : PackageLimits → Option ℕ → Option ℕ → Option ℕ → Type 0
FitsLimits limits (some length) (some width) (some height) =
    AtMost limits.max_length length
    × AtMost limits.max_width width
    × AtMost limits.max_height height
FitsLimits limits none width height = Unit
FitsLimits limits (some length) none height = Unit
FitsLimits limits (some length) (some width) none = Unit

-- What a provider's limits ask of a parcel.
abbrev pub IsAllowed : Option PackageLimits → Parcel → Type 0
IsAllowed none p = Unit
IsAllowed (some limits) p =
    AtMost limits.max_weight p.weight
    × AtLeast limits.min_weight p.weight
    × ((limits.supported_package_types ≡ [])
        ⊎ HasOne (λ t. t ≡ p.package_type) limits.supported_package_types)
    × FitsLimits limits p.length p.width p.height

abbrev pub Carries : Parcel → Vehicle → Type 0
Carries p v = (v.enabled ≡ true) × AtMost v.max_weight p.weight

abbrev pub TakesSchedules : ProviderService → Type 0
TakesSchedules s =
    (s.enabled ≡ true)
    × ((s.service_type ≡ "SCHEDULED")
        ⊎ (s.service_type ≡ "EXPRESS")
        ⊎ (s.service_type ≡ "SAME_DAY"))

-- The limits are kept; a vehicle in service carries the parcel, where there is any; and a service on
-- offer takes schedules, where the delivery has one and there are services on offer.
pub record Suits (c : Capacity) (p : Parcel) : Type 0 where
  pub allowed : IsAllowed c.package_limits p
  pub carried : (any (λ v. v.enabled) c.vehicles ≡ false) ⊎ HasOne (Carries p) c.vehicles
  pub on_time :
      (p.scheduled ≡ false)
      ⊎ (any (λ s. s.enabled) c.services ≡ false)
      ⊎ HasOne TakesSchedules c.services

is_over_iff : (limit : Option ℕ) (x : ℕ) → (is_over limit x ≡ false) ↔ AtMost limit x
is_over_iff none x = (λ h. tt, λ h. refl)
is_over_iff (some limit) x = (λ h. ground (arith, h), λ h. ground (arith, h))

is_under_iff : (limit : Option ℕ) (x : ℕ) → (is_under limit x ≡ false) ↔ AtLeast limit x
is_under_iff none x = (λ h. tt, λ h. refl)
is_under_iff (some limit) x = (λ h. ground (arith, h), λ h. ground (arith, h))

abbrev carries : Parcel → Vehicle → Bool
carries p v = v.enabled && not (is_over v.max_weight p.weight)

carries-Carries : (p : Parcel) (v : Vehicle) → carries p v ≡ true → Carries p v
carries-Carries p v h =
    let under : is_over v.max_weight p.weight ≡ false = ground (arith, h) in
    (ground (arith, h), (is_over_iff v.max_weight p.weight).0 under)

Carries-carries : (p : Parcel) (v : Vehicle) → Carries p v → carries p v ≡ true
Carries-carries p v (enabled, h) =
    let under = (is_over_iff v.max_weight p.weight).1 h in ground (arith, under)

carried_iff :
    (c : Capacity) (p : Parcel)
    → (fits_no_vehicle c p ≡ false)
      ↔ ((any (λ v. v.enabled) c.vehicles ≡ false) ⊎ HasOne (Carries p) c.vehicles)
carried_iff c p = (
  λ h. elim (Bool-cases (any (carries p) c.vehicles)) [
    | inl found ↦ inr (any-HasOne (Carries p) (carries p) (carries-Carries p) c.vehicles found)
    | inr nobody ↦ inl (ground (arith, h, nobody))
  ],
  λ h. elim h [
    | inl unused ↦ ground (arith, unused)
    | inr one ↦
        let found = HasOne-any (Carries p) (carries p) (Carries-carries p) {xs = c.vehicles} one in
        ground (arith, found)
  ],
)

nonempty_cases : (ts : List String) → (ts ≡ []) ⊎ (any (λ t. true) ts ≡ true)
nonempty_cases [] = inl refl
nonempty_cases (t ∷ ts) = inr refl

types_iff :
    (ts : List String) (wanted : String)
    → (any (λ t. true) ts && not (any (λ t. str_eq t wanted) ts) ≡ false)
      ↔ ((ts ≡ []) ⊎ HasOne (λ t. t ≡ wanted) ts)
types_iff ts wanted = (
  λ h. elim (nonempty_cases ts) [
    | inl empty ↦ inl empty
    | inr listed ↦ inr (
        any-HasOne (λ t. t ≡ wanted) (λ t. str_eq t wanted) (λ t. (eq_iff t wanted).0) ts
          (ground (arith, h, listed)))
  ],
  λ h. elim h [
    | inl empty ↦ rw empty refl
    | inr one ↦
        let found =
          HasOne-any (λ t. t ≡ wanted) (λ t. str_eq t wanted) (λ t. (eq_iff t wanted).1) {xs = ts}
            one in
        ground (arith, found)
  ],
)

abbrev too_big : PackageLimits → Option ℕ → Option ℕ → Option ℕ → Bool
too_big limits length width height =
    (is_some length && is_some width && is_some height)
    && (is_over_length limits.max_length length
        || is_over_length limits.max_width width
        || is_over_length limits.max_height height)

size_iff :
    (limits : PackageLimits) (length width height : Option ℕ)
    → (too_big limits length width height ≡ false) ↔ FitsLimits limits length width height
size_iff limits none width height = (λ h. tt, λ h. refl)
size_iff limits (some l) none height = (λ h. tt, λ h. refl)
size_iff limits (some l) (some w) none = (λ h. tt, λ h. refl)
size_iff limits (some l) (some w) (some x) = (
  λ h. (
    (is_over_iff limits.max_length l).0 (ground (arith, h)),
    (is_over_iff limits.max_width w).0 (ground (arith, h)),
    (is_over_iff limits.max_height x).0 (ground (arith, h)),
  ),
  λ h.
      let (in_length, in_width, in_height) = h in
      rw
        (
          (is_over_iff limits.max_length l).1 in_length,
          (is_over_iff limits.max_width w).1 in_width,
          (is_over_iff limits.max_height x).1 in_height,
        )
        refl,
)

unmeasured :
    (length width height : Option ℕ)
    → (is_some length && is_some width && is_some height)
        && (is_over_length none length || is_over_length none width || is_over_length none height)
      ≡ false
unmeasured none width height = refl
unmeasured (some l) none height = refl
unmeasured (some l) (some w) none = refl
unmeasured (some l) (some w) (some x) = refl

-- The tests of the limits.
abbrev KeepsLimits : Option PackageLimits → Parcel → Type 0
KeepsLimits limits p =
    (is_over (limit_of (λ l. l.max_weight) limits) p.weight ≡ false)
    × (is_under (limit_of (λ l. l.min_weight) limits) p.weight ≡ false)
    × (any (λ t. true) (types_of limits)
          && not (any (λ t. str_eq t p.package_type) (types_of limits))
        ≡ false)
    × ((is_some p.length && is_some p.width && is_some p.height)
          && (is_over_length (limit_of (λ l. l.max_length) limits) p.length
              || is_over_length (limit_of (λ l. l.max_width) limits) p.width
              || is_over_length (limit_of (λ l. l.max_height) limits) p.height)
        ≡ false)

limits_iff :
    (limits : Option PackageLimits) (p : Parcel) → KeepsLimits limits p ↔ IsAllowed limits p
limits_iff none p = (λ h. tt, λ h. (refl, refl, refl, unmeasured p.length p.width p.height))
limits_iff (some limits) p = (
  λ h.
      let (heavy, light, refused, big) = h in
      (
        (is_over_iff limits.max_weight p.weight).0 heavy,
        (is_under_iff limits.min_weight p.weight).0 light,
        (types_iff limits.supported_package_types p.package_type).0 refused,
        (size_iff limits p.length p.width p.height).0 big,
      ),
  λ h.
      let (heavy, light, refused, big) = h in
      (
        (is_over_iff limits.max_weight p.weight).1 heavy,
        (is_under_iff limits.min_weight p.weight).1 light,
        (types_iff limits.supported_package_types p.package_type).1 refused,
        (size_iff limits p.length p.width p.height).1 big,
      ),
)

abbrev takes_schedules : ProviderService → Bool
takes_schedules s = s.enabled && any (λ t. str_eq t s.service_type) scheduled_service_types

takes-TakesSchedules : (s : ProviderService) → takes_schedules s ≡ true → TakesSchedules s
takes-TakesSchedules s h = (
  ground (arith, h),
  elim (Bool-cases (str_eq "SCHEDULED" s.service_type)) [
    | inl yes_ ↦ inl (sym ((eq_iff "SCHEDULED" s.service_type).0 yes_))
    | inr no_ ↦ elim (Bool-cases (str_eq "EXPRESS" s.service_type)) [
      | inl yes_ ↦ inr (inl (sym ((eq_iff "EXPRESS" s.service_type).0 yes_)))
      | inr not_ ↦
          inr (inr (sym ((eq_iff "SAME_DAY" s.service_type).0 (ground (arith, h, no_, not_)))))
    ]
  ],
)

TakesSchedules-takes : (s : ProviderService) → TakesSchedules s → takes_schedules s ≡ true
TakesSchedules-takes s (enabled, inl e) = rw (enabled, e) refl
TakesSchedules-takes s (enabled, inr (inl e)) = rw (enabled, e) refl
TakesSchedules-takes s (enabled, inr (inr e)) = rw (enabled, e) refl

on_time_iff :
    (c : Capacity) (p : Parcel)
    → (is_schedule_refused c p ≡ false) ↔ (
        (p.scheduled ≡ false)
        ⊎ (any (λ s. s.enabled) c.services ≡ false)
        ⊎ HasOne TakesSchedules c.services)
on_time_iff c p = (
  λ h. elim (Bool-cases p.scheduled) [
    | inr now_ ↦ inl now_
    | inl later_ ↦ elim (Bool-cases (any takes_schedules c.services)) [
      | inl found ↦
          inr
            (inr (any-HasOne TakesSchedules takes_schedules takes-TakesSchedules c.services found))
      | inr nobody ↦ inr (inl (ground (arith, h, later_, nobody)))
    ]
  ],
  λ h. elim h [
    | inl now_ ↦ ground (arith, now_)
    | inr (inl unused) ↦ ground (arith, unused)
    | inr (inr one) ↦
        let found =
          HasOne-any TakesSchedules takes_schedules TakesSchedules-takes {xs = c.services} one in
        ground (arith, found)
  ],
)

none_stands :
    (heavy light unfit refused big late : Bool)
    → reason_if heavy weight_exceeds_provider_limit
        ++ reason_if light weight_below_provider_minimum
        ++ reason_if unfit weight_exceeds_provider_limit
        ++ reason_if refused package_type_not_supported
        ++ reason_if big dimensions_exceed_provider_limit
        ++ reason_if late schedule_not_supported
      ≡ []
    → (heavy ≡ false)
      × (light ≡ false)
      × (unfit ≡ false)
      × (refused ≡ false)
      × (big ≡ false)
      × (late ≡ false)
none_stands true light unfit refused big late h = cc h
none_stands false true unfit refused big late h = cc h
none_stands false false true refused big late h = cc h
none_stands false false false true big late h = cc h
none_stands false false false false true late h = cc h
none_stands false false false false false true h = cc h
none_stands false false false false false false h = (refl, refl, refl, refl, refl, refl)

unfit-carried :
    (heavy light none_fits : Bool)
    → heavy ≡ false
    → light ≡ false
    → not (heavy || light) && none_fits ≡ false
    → none_fits ≡ false
unfit-carried heavy light none_fits h l u = ground arith

suits :
    (c : Capacity) (p : Parcel)
    → (evaluate_pre_adapter_compatibility c p).exclusion_reasons ≡ []
    → Suits c p
unfolding evaluate_pre_adapter_compatibility
suits c p h =
    let (heavy, light, unfit, refused, big, late) =
      none_stands (is_too_heavy c p) (is_too_light c p)
        (not (is_too_heavy c p || is_too_light c p) && fits_no_vehicle c p) (is_type_refused c p)
        (is_too_big c p) (is_schedule_refused c p) h in
    record {
      allowed = (limits_iff c.package_limits p).0 ((heavy, light, refused, big));
      carried = (carried_iff c p).0 (
          unfit-carried (is_too_heavy c p) (is_too_light c p) (fits_no_vehicle c p) heavy light
            unfit);
      on_time = (on_time_iff c p).0 late;
    }

unexcluded :
    (c : Capacity) (p : Parcel)
    → Suits c p
    → (evaluate_pre_adapter_compatibility c p).exclusion_reasons ≡ []
unfolding evaluate_pre_adapter_compatibility
unexcluded c p v =
    let (heavy, light, refused, big) = (limits_iff c.package_limits p).1 v.allowed in
    rw (heavy, light, (carried_iff c p).1 v.carried, refused, big, (on_time_iff c p).1 v.on_time)
      refl

-- No reason of exclusion is found exactly when the weight is within both limits of the provider, the
-- type of the parcel is among the supported ones where these are listed, each length of a measured
-- parcel is within its limit, a vehicle in service carries the weight where there are any, and a
-- service on offer is for a schedule where the delivery has one and there are services on offer.
pub exclusion_reasons_iff :
    (c : Capacity) (p : Parcel)
    → ((evaluate_pre_adapter_compatibility c p).exclusion_reasons ≡ []) ↔ Suits c p
exclusion_reasons_iff c p = (suits c p, unexcluded c p)
