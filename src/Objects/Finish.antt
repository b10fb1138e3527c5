-- ===== src/Objects/Finish.antt =====
-- How a run of a reconciler of objects ends: with named results, which a deferred function reads.
pub mod Rules
use opensearch_k8s_operator.Prelude.{ℕ, Bool, true, false, Option, none, some, String}
use opensearch_k8s_operator.Api.{Error, Outcome}
use opensearch_k8s_operator.Exec.{World, Result, ok, err, Exec, M, raise}

-- What a run ends with: the reason for the status, the result and the error.
pub record Finish : Type 0 where
  pub reason : String
  pub result : Outcome
  pub error : Option Error

abbrev pub at_once : Outcome
at_once = record { requeue = false; requeue_after = 0 }

abbrev pub again_in : ℕ → Outcome
again_in n = record { requeue = true; requeue_after = n }

abbrev pub failure : String → Error → Finish
failure reason e = record { reason = reason; result = at_once; error = some e }

-- A return with an error: its reason may use the error.
abbrev pub explained :
    {A : Type 0} → (Error → String) → World × Result Error A → World × Result Finish A
explained reason (w, ok a) = (w, ok a)
explained reason (w, err e) = (w, err (failure (reason e) e))

abbrev pub or_return : {A : Type 0} → (Error → String) → M A → Exec Finish A
or_return reason m w = explained reason (m w)

-- A return without an error.
abbrev pub leave : {A : Type 0} → String → Outcome → Exec Finish A
leave reason result = raise (record { reason = reason; result = result; error = none })

abbrev pub is_error_set : Option Error → Bool
is_error_set none = false
is_error_set (some e) = true

-- What the deferred function sees.
abbrev pub settled : World × Result Finish Finish → World × Result Error Finish
settled (w, ok f) = (w, ok f)
settled (w, err f) = (w, ok f)
