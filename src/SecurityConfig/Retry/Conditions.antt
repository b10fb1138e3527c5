-- ===== src/SecurityConfig/Retry/Conditions.antt =====
-- The count and the time are read back from the conditions that hold them.
use Prim.Native.Char.{code}
use Prim.Native.String.append
use opensearch_k8s_operator.Prelude.{
  ℕ, ◌<◌, ◌≡◌, refl, sym, ap, Option, none, some, List, [], ◌∷◌, String, ◌<>◌, ◌==◌, true, inl, inr,
  nat_eq, ◌∙◌, arith, Bool-cases,
}
use opensearch_k8s_operator.Prelude.Int.{ℤ, pos}
use opensearch_k8s_operator.Text.{show_ℤ, show_ℕ, atoi}
use opensearch_k8s_operator.Text.Decimal.{atoi-show_ℕ}
use opensearch_k8s_operator.Text.Prefix.{strip_prefix}
use opensearch_k8s_operator.Api.{ComponentStatus}
use opensearch_k8s_operator.Restart.Run.{update_component_status}
use opensearch_k8s_operator.SecurityConfig.{SecurityServices}
use opensearch_k8s_operator.SecurityConfig.Retry.{
  component_name, status_with, component_status, first_read, retry_count, last_retry,
  retry_conditions, or_zero, or_never,
}

-- An update of the component is what the next look at the statuses finds.
pub component_status-update_component_status :
    (v : ComponentStatus) (vs : List ComponentStatus)
    → v.component ≡ component_name
    → component_status (update_component_status v vs) ≡ some v
unfolding component_status update_component_status
component_status-update_component_status v [] e = rw e refl
component_status-update_component_status v (u ∷ us) e =
    elim (Bool-cases (u.component == v.component)) [
      | inl t ↦ rw t (rw e refl)
      | inr t ↦ rw t (rw (← e, t) (component_status-update_component_status v us e))
    ]

nat_eq_self : (n : ℕ) → nat_eq n n ≡ true
nat_eq_self n = ground arith

nat_eq→eq : (n : ℕ) → nat_eq n 0 ≡ true → n ≡ 0
nat_eq→eq n e = ground arith

first_read-reads :
    {A : Type 0} (prefix : String) (read_it : String → Option A) (c : String) (cs : List String)
    (s : String) (a : A)
    → strip_prefix prefix c ≡ some s
    → read_it s ≡ some a
    → first_read prefix read_it (c ∷ cs) ≡ some a
unfolding first_read
first_read-reads prefix read_it c cs s a p r = rw (p, first_read) (rw r refl)

first_read-skips :
    {A : Type 0} (prefix : String) (read_it : String → Option A) (c : String) (cs : List String)
    → strip_prefix prefix c ≡ none
    → first_read prefix read_it (c ∷ cs) ≡ first_read prefix read_it cs
unfolding first_read
first_read-skips prefix read_it c cs p = rw (p, first_read) refl

strip_prefix-append : (p s : String) → strip_prefix p (p <> s) ≡ some s
unfolding strip_prefix
strip_prefix-append String.[] s = ap some (append.nil s)
strip_prefix-append (String.◌∷◌ c p) s =
    ap (strip_prefix (String.◌∷◌ c p)) (append.cons c p s)
    ∙ rw (nat_eq_self (code c)) (strip_prefix-append p s)

other_prefix : (s : String) → strip_prefix "lastRetry:" ("retry:" <> s) ≡ none
unfolding strip_prefix
other_prefix s = ap (strip_prefix "lastRetry:") (append.cons "r" "etry:" s)

module _ (sv : SecurityServices) where
  retry_count-conditions :
      (n t : ℕ)
      → n < 9223372036854775808
      → first_read "retry:" atoi (retry_conditions sv (pos n) t) ≡ some (pos n)
  unfolding retry_conditions show_ℤ
  retry_count-conditions n t h =
      first_read-reads "retry:" atoi _ _ (show_ℕ n) (pos n)
        (strip_prefix-append "retry:" (show_ℕ n)) (atoi-show_ℕ n h)

  last_retry-conditions :
      (n : ℤ) (t : ℕ)
      → sv.parse (sv.format t) ≡ some t
      → or_never (first_read "lastRetry:" sv.parse (retry_conditions sv n t)) ≡ t
  unfolding retry_conditions first_read
  last_retry-conditions n t p = elim (Bool-cases (nat_eq t 0)) [
    | inl z ↦ rw z (
        ap or_never (first_read-skips "lastRetry:" sv.parse _ [] (other_prefix (show_ℤ n)))
        ∙ sym (nat_eq→eq t z))
    | inr z ↦ rw z (
        ap or_never (
          first_read-skips "lastRetry:" sv.parse _ (("lastRetry:" <> sv.format t) ∷ [])
            (other_prefix (show_ℤ n))
          ∙ first_read-reads "lastRetry:" sv.parse _ [] (sv.format t) t
              (strip_prefix-append "lastRetry:" (sv.format t)) p))
  ]

  -- What a failure leaves in the component's status is read back by the next run: the count, as far
  -- as it fits an int of 64 bits and is not negative, and the time, if it can be parsed as it was
  -- formatted, whatever other components there are.
  pub retry_conditions-round_trip :
      (status description : String) (n t : ℕ) (vs : List ComponentStatus)
      → n < 9223372036854775808
      → sv.parse (sv.format t) ≡ some t
      → let vs' =
          update_component_status
            (status_with status description (retry_conditions sv (pos n) t))
            vs in
        (retry_count vs' ≡ pos n) × (last_retry sv vs' ≡ t)
  unfolding retry_count last_retry
  retry_conditions-round_trip status description n t vs h p =
      let v = status_with status description (retry_conditions sv (pos n) t) in
      rw (component_status-update_component_status v vs refl)
        (ap or_zero (retry_count-conditions n t h), last_retry-conditions (pos n) t p)
