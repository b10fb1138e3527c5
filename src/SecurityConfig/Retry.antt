-- ===== src/SecurityConfig/Retry.antt =====
-- How often the job was tried again and when, which the conditions of the component hold as texts
-- (pkg/reconcilers/securityconfig.go).
pub mod Delay
pub mod Conditions
use opensearch_k8s_operator.Prelude.{
  ℕ, zero, suc, ◌*◌, ◌≡◌, refl, Bool, true, false, Option, none, some, List, [], ◌∷◌, String, ◌<>◌,
  ◌==◌, leb, nat_eq, if◌then◌else◌,
}
use opensearch_k8s_operator.Prelude.Int.{ℤ, pos, negsuc}
use opensearch_k8s_operator.Text.{show_ℤ, atoi}
use opensearch_k8s_operator.Text.Prefix.{strip_prefix}
use opensearch_k8s_operator.Api.{ComponentStatus}
use opensearch_k8s_operator.SecurityConfig.{SecurityServices}

-- The loop of securityConfigRetryDelay, in seconds: 15 minutes are the most.
unfoldable pub delay_loop : ℕ → ℕ → ℕ
delay_loop zero delay = delay
delay_loop (suc n) delay =
    let rest = delay_loop n (delay * 2) in if leb 900 (delay * 2) then 900 else rest

-- A negative count makes no turn of the loop.
unfoldable pub retry_delay : ℤ → ℕ
unfolding delay_loop
retry_delay (pos n) = delay_loop n 30
retry_delay (negsuc n) = 30

-- `retryCount++` on an int of 64 bits.
unfoldable pub next_count : ℤ → ℤ
next_count (pos n) =
    if nat_eq n 9223372036854775807 then negsuc 9223372036854775807 else pos (suc n)
next_count (negsuc zero) = pos 0
next_count (negsuc (suc n)) = negsuc n

abbrev pub component_name : String
component_name = "Securityconfig"

abbrev pub status_with : String → String → List String → ComponentStatus
status_with status description conditions = record {
  component = component_name;
  status = status;
  description = description;
  conditions = conditions;
}

unfoldable pub component_status : List ComponentStatus → Option ComponentStatus
component_status [] = none
component_status (v ∷ vs) =
    let rest = component_status vs in if v.component == component_name then some v else rest

abbrev pub conditions_of : Option ComponentStatus → List String
conditions_of none = []
conditions_of (some v) = v.conditions

-- The first condition with the prefix whose rest can be read.
unfoldable pub first_read : {A : Type 0} → String → (String → Option A) → List String → Option A
first_read prefix read_it [] = none
first_read prefix read_it (c ∷ cs) =
    let rest = first_read prefix read_it cs in
    elim (strip_prefix prefix c) [
      | none ↦ rest
      | some s ↦ elim (read_it s) [ none ↦ rest | some a ↦ some a ]
    ]

abbrev pub or_zero : Option ℤ → ℤ
or_zero none = pos 0
or_zero (some n) = n

unfoldable pub retry_count : List ComponentStatus → ℤ
unfolding first_read component_status
retry_count vs = or_zero (first_read "retry:" atoi (conditions_of (component_status vs)))

unfoldable pub current_retry_conditions : List ComponentStatus → List String
unfolding component_status
current_retry_conditions vs = conditions_of (component_status vs)

abbrev pub or_never : Option ℕ → ℕ
or_never none = 0
or_never (some t) = t

module _ (sv : SecurityServices) where
  -- 0 is the zero value of time.Time.
  unfoldable pub last_retry : List ComponentStatus → ℕ
  unfolding first_read component_status
  last_retry vs = or_never (first_read "lastRetry:" sv.parse (conditions_of (component_status vs)))

  unfoldable pub retry_conditions : ℤ → ℕ → List String
  retry_conditions n last =
      ("retry:" <> show_ℤ n) ∷ (if nat_eq last 0 then [] else ("lastRetry:" <> sv.format last) ∷ [])

delays : (retry_delay (pos 0) ≡ 30) × (retry_delay (pos 2) ≡ 120) × (retry_delay (pos 9) ≡ 900)
unfolding retry_delay
delays = (refl, refl, refl)
