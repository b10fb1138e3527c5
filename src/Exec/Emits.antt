-- ===== src/Exec/Emits.antt =====
-- What an action may write: one rule for each way to build an action.
use mathlib.Core.Path.{ap}
use opensearch_k8s_operator.Prelude.{
  ℕ, zero, suc, ◌≡◌, refl, sym, ◌∙◌, Bool, true, false, Option, none, some, [], ◌∷◌, ◌++◌,
  append_assoc, String, if◌then◌else◌, All, All-append,
}
use opensearch_k8s_operator.Api.{Error, not_found, conflict, panic, api, failed}
use opensearch_k8s_operator.Exec.{
  Event, read, History, World, Result, ok, err, Exec, M, continue, pure, raise, ◌>>=◌, caught,
  attempt, lift, failing, tagged, query, command, deref, accepted, retried, on_conflict,
}

-- The later history is the earlier one with events in front of it, each of which meets `P`.
abbrev pub Extends : (Event → Type 0) → History → History → Type 0
Extends P h h' = (es : History) × (h' ≡ es ++ h) × All P es

pub record Emits {E A : Type 0} (P : Event → Type 0) (m : Exec E A) : Type 0 where
  pub at : (w : World) → Extends P w.history (m w).0.history

module _ {P : Event → Type 0} where
  pub Extends-trans : {a b c : History} → Extends P a b → Extends P b c → Extends P a c
  Extends-trans {a} (es, p, u) (fs, q, v) =
      (fs ++ es, q ∙ ap (λ h. fs ++ h) p ∙ sym (append_assoc fs es a), All-append P fs es v u)

  pub Emits-pure : {E A : Type 0} (a : A) → Emits {E = E} P (pure a)
  Emits-pure a = record { at = λ w. ([], refl, tt) }

  pub Emits-raise : {E A : Type 0} (e : E) → Emits {A = A} P (raise e)
  Emits-raise e = record { at = λ w. ([], refl, tt) }

  pub Emits-lift : {E A : Type 0} (r : Result E A) → Emits P (lift r)
  Emits-lift r = record { at = λ w. ([], refl, tt) }

  pub Emits-deref : {A : Type 0} (o : Option A) → Emits P (deref o)
  Emits-deref none = Emits-raise panic
  Emits-deref (some a) = Emits-pure a

  -- What follows a pointer is only run with what the pointer holds.
  pub Emits-behind_deref :
      {A B : Type 0} (o : Option A) (f : A → M B)
      → ((a : A) → o ≡ some a → Emits P (f a))
      → Emits P (deref o >>= f)
  Emits-behind_deref none f k = Emits-raise panic
  Emits-behind_deref (some a) f k = k a refl

  pub Emits-pointer_behind :
      {X A B : Type 0} (x : X) (o : Option A) (f : A → Exec (X × Error) B)
      → ((a : A) → o ≡ some a → Emits P (f a))
      → Emits P (failing x (deref o) >>= f)
  Emits-pointer_behind x none f k = Emits-raise (x, panic)
  Emits-pointer_behind x (some a) f k = k a refl

  pub Emits-query :
      {A : Type 0} (call : String) (answer : History → Result Error A)
      → P (read call)
      → Emits P (query call answer)
  Emits-query call answer h = record { at = λ w. (read call ∷ [], refl, (h, tt)) }

  pub Emits-command :
      (event : Bool → Event) (answer : History → Option Error)
      → ((b : Bool) → P (event b))
      → Emits P (command event answer)
  Emits-command event answer h = record {
    at = λ w.
        (event (accepted (answer w.history)) ∷ [], refl, (h (accepted (answer w.history)), tt));
  }

  continue-Extends :
      {E A B : Type 0} (h : History) (p : World × Result E A) (f : A → Exec E B)
      → Extends P h p.0.history
      → ((a : A) → Emits P (f a))
      → Extends P h (continue p f).0.history
  continue-Extends h (w, ok a) f x k = Extends-trans x ((k a).at w)
  continue-Extends h (w, err e) f x k = x

  pub Emits-bind :
      {E A B : Type 0} (m : Exec E A) (f : A → Exec E B)
      → Emits P m
      → ((a : A) → Emits P (f a))
      → Emits P (m >>= f)
  Emits-bind m f km kf = record { at = λ w. continue-Extends w.history (m w) f (km.at w) kf }

  caught-Extends :
      {A : Type 0} (h : History) (p : World × Result Error A)
      → Extends P h p.0.history
      → Extends P h (caught p).0.history
  caught-Extends h (w, ok a) x = x
  caught-Extends h (w, err panic) x = x
  caught-Extends h (w, err not_found) x = x
  caught-Extends h (w, err conflict) x = x
  caught-Extends h (w, err (api s)) x = x
  caught-Extends h (w, err (failed s)) x = x

  pub Emits-attempt : {A : Type 0} (m : M A) → Emits P m → Emits P (attempt m)
  Emits-attempt m k = record { at = λ w. caught-Extends w.history (m w) (k.at w) }

  tagged-Extends :
      {X E A : Type 0} (h : History) (x : X) (p : World × Result E A)
      → Extends P h p.0.history
      → Extends P h (tagged x p).0.history
  tagged-Extends h x (w, ok a) y = y
  tagged-Extends h x (w, err e) y = y

  pub Emits-failing : {X E A : Type 0} (x : X) (m : Exec E A) → Emits P m → Emits P (failing x m)
  Emits-failing x m k = record { at = λ w. tagged-Extends w.history x (m w) (k.at w) }

  pub Emits-if :
      {E A : Type 0} (b : Bool) (m n : Exec E A)
      → (b ≡ true → Emits P m)
      → (b ≡ false → Emits P n)
      → Emits P (if b then m else n)
  Emits-if true m n km kn = km refl
  Emits-if false m n km kn = kn refl

  pub Emits-option :
      {X E A : Type 0} (o : Option X) (m : Exec E A) (f : X → Exec E A)
      → Emits P m
      → ((x : X) → Emits P (f x))
      → Emits P (elim o [ none ↦ m | some x ↦ f x ])
  Emits-option none m f km kf = km
  Emits-option (some x) m f km kf = kf x

  pub retried-Extends :
      {A : Type 0} (again : M A) (h : History) (p : World × Result Error A)
      → Emits P again
      → Extends P h p.0.history
      → Extends P h (retried again p).0.history
  retried-Extends again h (w, ok a) k x = x
  retried-Extends again h (w, err conflict) k x = Extends-trans x (k.at w)
  retried-Extends again h (w, err not_found) k x = x
  retried-Extends again h (w, err panic) k x = x
  retried-Extends again h (w, err (api s)) k x = x
  retried-Extends again h (w, err (failed s)) k x = x

  pub Emits-on_conflict : {A : Type 0} (n : ℕ) (m : M A) → Emits P m → Emits P (on_conflict n m)
  unfolding on_conflict
  Emits-on_conflict zero m k = k
  Emits-on_conflict (suc n) m k = record {
    at = λ w.
        retried-Extends (λ v. on_conflict n m v) w.history (m w)
          (record { at = λ v. (Emits-on_conflict n m k).at v }) (k.at w);
  }

-- `P` may be weakened.
module _ {P Q : Event → Type 0} (f : (e : Event) → P e → Q e) where
  All-weaken : (es : History) → All P es → All Q es
  All-weaken [] u = tt
  All-weaken (e ∷ es) u = (f e u.0, All-weaken es u.1)

  pub Extends-weaken : {h h' : History} → Extends P h h' → Extends Q h h'
  Extends-weaken (es, p, u) = (es, p, All-weaken es u)

pub Emits-weaken :
    {P Q : Event → Type 0} {E A : Type 0} (m : Exec E A)
    → ((e : Event) → P e → Q e)
    → Emits P m
    → Emits Q m
Emits-weaken m f k = record { at = λ w. Extends-weaken f (k.at w) }

pub ruleset emits_rules = (
  Emits-pure, Emits-raise, Emits-lift, Emits-deref, Emits-query, Emits-command, Emits-bind,
  Emits-attempt, Emits-failing, Emits-if, Emits-on_conflict,
)
