-- ===== src/Exec.antt =====
-- Actions against the two APIs. An action runs from a world to a world and returns a value or an
-- error; what was written before an error stays written.
pub mod Emits
pub mod Kinds
pub mod Adds
pub mod Returns
pub mod Yields
use opensearch_k8s_operator.Prelude.{
  ℕ, zero, suc, ◌≡◌, refl, Bool, true, false, Option, none, some, List, [], ◌∷◌, String,
}
use opensearch_k8s_operator.Prelude.Int.{ℤ}
use opensearch_k8s_operator.Api.{
  Error, not_found, conflict, panic, api, failed, ClusterStatus, ComponentStatus, StatefulSet,
}
use opensearch_k8s_operator.Api.Json.{Fields}
use opensearch_k8s_operator.Api.Objects.{Write}

-- What happened at the APIs. A read is kept by its call's name; a write is kept with what was
-- written and whether it was accepted.
pub data Event : Type 0 where
  read : String → Event
  pod_deleted : String → Bool → Event
  sts_applied : StatefulSet → Bool → Event
  sts_removed : String → Bool → Event
  sts_status_put : StatefulSet → Bool → Event
  status_put : ClusterStatus → Bool → Event
  settings_put : Fields → Fields → Bool → Event
  written : Write → Bool → Event

-- The newest event stands first.
abbrev pub History : Type 0
History = List Event

-- The history, and the slice Status.ComponentsStatus of the object that the reconciler holds.
pub record World : Type 0 where
  pub history : History
  pub components : List ComponentStatus

pub data Result (E A : Type 0) : Type 0 where
  ok : A → Result E A
  err : E → Result E A

abbrev pub Exec : Type 0 → Type 0 → Type 0
Exec E A = World → World × Result E A

-- The usual case: a Go function that returns a value and an `error`.
abbrev pub M : Type 0 → Type 0
M = Exec Error

abbrev pub continue : {E A B : Type 0} → World × Result E A → (A → Exec E B) → World × Result E B
continue (w, ok a) f = f a w
continue (w, err e) f = (w, err e)

abbrev pub pure : {E A : Type 0} → A → Exec E A
pure a w = (w, ok a)

abbrev pub raise : {E A : Type 0} → E → Exec E A
raise e w = (w, err e)

infixl 5 ◌>>=◌ ◌>>◌
abbrev pub ◌>>=◌ : {E A B : Type 0} → Exec E A → (A → Exec E B) → Exec E B
◌>>=◌ m f w = continue (m w) f

abbrev pub ◌>>◌ : {E A B : Type 0} → Exec E A → Exec E B → Exec E B
m >> k = m >>= λ _. k

-- A panic is not caught.
abbrev pub caught : {A : Type 0} → World × Result Error A → World × Result Error (Result Error A)
caught (w, ok a) = (w, ok (ok a))
caught (w, err panic) = (w, err panic)
caught (w, err not_found) = (w, ok (err not_found))
caught (w, err conflict) = (w, ok (err conflict))
caught (w, err (api s)) = (w, ok (err (api s)))
caught (w, err (failed s)) = (w, ok (err (failed s)))

-- Go's `v, err := f()` where the code goes on after an error.
abbrev pub attempt : {A : Type 0} → M A → M (Result Error A)
attempt m w = caught (m w)

abbrev pub lift : {E A : Type 0} → Result E A → Exec E A
lift r w = (w, r)

abbrev pub tagged : {X E A : Type 0} → X → World × Result E A → World × Result (X × E) A
tagged x (w, ok a) = (w, ok a)
tagged x (w, err e) = (w, err (x, e))

-- `return x, err` of a function whose other result matters beside an error too.
abbrev pub failing : {X E A : Type 0} → X → Exec E A → Exec (X × E) A
failing x m w = tagged x (m w)

abbrev pub unless : {E : Type 0} → Option E → Result E (Unit {0})
unless none = ok tt
unless (some e) = err e

abbrev pub accepted : Option Error → Bool
accepted none = true
accepted (some e) = false

abbrev pub log : World → Event → World
log w e = record w { history = e ∷ w.history }

-- A read.
abbrev pub query : {A : Type 0} → String → (History → Result Error A) → M A
query call answer w = (log w (read call), answer w.history)

-- A write.
abbrev pub command : (Bool → Event) → (History → Option Error) → M (Unit {0})
command event answer w = let r = answer w.history in (log w (event (accepted r)), unless r)

-- Dereferencing a nil pointer panics.
abbrev pub deref : {A : Type 0} → Option A → M A
deref none = raise panic
deref (some a) = pure a

abbrev pub retried : {A : Type 0} → M A → World × Result Error A → World × Result Error A
retried again (w, ok a) = (w, ok a)
retried again (w, err conflict) = again w
retried again (w, err not_found) = (w, err not_found)
retried again (w, err panic) = (w, err panic)
retried again (w, err (api s)) = (w, err (api s))
retried again (w, err (failed s)) = (w, err (failed s))

-- retry.RetryOnConflict, with the number of tries after the first.
unfoldable pub on_conflict : {A : Type 0} → ℕ → M A → M A
on_conflict zero m w = m w
on_conflict {A} (suc n) m w = let again : M A = λ v. on_conflict n m v in retried again (m w)
