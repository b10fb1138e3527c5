-- ===== src/Combined.antt =====
-- CombinedResult (pkg/reconciler/result.go): results of parts, collected without bailing out. The
-- combined error is the list of the errors in it, as emperror.dev/errors keeps them.
pub mod Laws
use opensearch_k8s_operator.Prelude.{
  ℕ, Bool, true, false, ◌&&◌, ◌||◌, Option, none, some, List, [], ◌∷◌, ◌++◌, ltb, nat_eq,
  if◌then◌else◌,
}
use opensearch_k8s_operator.Api.{Error, Outcome}

pub record CombinedResult : Type 0 where
  pub result : Outcome
  pub errors : List Error

abbrev pub empty : CombinedResult
empty = record { result = record { requeue = false; requeue_after = 0 }; errors = [] }

unfoldable pub combine_err : CombinedResult → Option Error → CombinedResult
combine_err c none = c
combine_err c (some e) = record c { errors = c.errors ++ (e ∷ []) }

abbrev pub merge : Outcome → Outcome → Outcome
merge r sub =
    let requeue = if sub.requeue then true else r.requeue in
    let sooner = nat_eq r.requeue_after 0 || ltb sub.requeue_after r.requeue_after in
    let after =
      if ltb 0 sub.requeue_after
      then (if sooner then sub.requeue_after else r.requeue_after)
      else r.requeue_after in
    record { requeue = requeue; requeue_after = after }

unfoldable pub combine : CombinedResult → Option Outcome → Option Error → CombinedResult
unfolding combine_err
combine c none e = combine_err c e
combine c (some sub) e = let d = combine_err c e in record d { result = merge d.result sub }
