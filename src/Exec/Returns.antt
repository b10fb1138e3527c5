-- ===== src/Exec/Returns.antt =====
-- What holds of the value that an action returns, if it returns one.
use mathlib.Core.Path.{subst}
use opensearch_k8s_operator.Prelude.{
  ℕ, zero, suc, String, Bool, true, false, ◌≡◌, refl, Option, none, some, if◌then◌else◌,
}
use opensearch_k8s_operator.Exec.Emits.{Emits, Extends, Extends-trans}
use opensearch_k8s_operator.Api.{Error, not_found, conflict, panic, api, failed}
use opensearch_k8s_operator.Exec.{
  M, attempt, caught, raise, Event, read, History, log, query, World, Result, ok, err, Exec,
  continue, ◌>>=◌, pure, retried, on_conflict,
}

unfoldable pub Post : {E A : Type 0} → (A → Type 0) → World × Result E A → Type 0
Post Q (w, ok a) = Q a
Post Q (w, err e) = Unit {0}

pub record Returns {E A : Type 0} (Q : A → Type 0) (m : Exec E A) : Type 0 where
  pub at : (w : World) → Post Q (m w)

module _ {E A : Type 0} {Q : A → Type 0} where
  pub Returns-pure : (a : A) → Q a → Returns {E = E} Q (pure a)
  unfolding Post
  Returns-pure a q = record { at = λ w. q }

  pub Returns-if :
      (b : Bool) (m n : Exec E A)
      → (b ≡ true → Returns Q m)
      → (b ≡ false → Returns Q n)
      → Returns Q (if b then m else n)
  Returns-if true m n km kn = km refl
  Returns-if false m n km kn = kn refl

  pub Returns-option :
      {X : Type 0} (o : Option X) (m : Exec E A) (f : X → Exec E A)
      → Returns Q m
      → ((x : X) → Returns Q (f x))
      → Returns Q (elim o [ none ↦ m | some x ↦ f x ])
  Returns-option none m f km kf = km
  Returns-option (some x) m f km kf = kf x

weaken-Post :
    {E A : Type 0} {Q R : A → Type 0} (p : World × Result E A)
    → ((a : A) → Q a → R a)
    → Post Q p
    → Post R p
unfolding Post
weaken-Post (w, ok a) f q = f a q
weaken-Post (w, err e) f q = tt

pub Returns-weaken :
    {E A : Type 0} {Q R : A → Type 0} (m : Exec E A)
    → ((a : A) → Q a → R a)
    → Returns Q m
    → Returns R m
Returns-weaken m f k = record { at = λ w. weaken-Post (m w) f (k.at w) }

continue-Post :
    {E A B : Type 0} {R : B → Type 0} (p : World × Result E A) (f : A → Exec E B)
    → ((a : A) → Returns R (f a))
    → Post R (continue p f)
unfolding Post
continue-Post (w, ok a) f k = (k a).at w
continue-Post (w, err e) f k = tt

pub Returns-bind :
    {E A B : Type 0} {R : B → Type 0} (m : Exec E A) (f : A → Exec E B)
    → ((a : A) → Returns R (f a))
    → Returns R (m >>= f)
Returns-bind m f k = record { at = λ w. continue-Post (m w) f k }

behind-Post :
    {E A B : Type 0} {Q : A → Type 0} {R : B → Type 0} (p : World × Result E A) (f : A → Exec E B)
    → Post Q p
    → ((a : A) → Q a → Returns R (f a))
    → Post R (continue p f)
unfolding Post
behind-Post (w, ok a) f q k = (k a q).at w
behind-Post (w, err e) f q k = tt

-- The second part may use what holds of the value of the first.
pub Returns-behind :
    {E A B : Type 0} {Q : A → Type 0} {R : B → Type 0} (m : Exec E A) (f : A → Exec E B)
    → Returns Q m
    → ((a : A) → Q a → Returns R (f a))
    → Returns R (m >>= f)
Returns-behind m f q k = record { at = λ w. behind-Post (m w) f (q.at w) k }

pub Post_ok :
    {E A : Type 0} (Q : A → Type 0) (p : World × Result E A) (a : A) → Post Q p → p.1 ≡ ok a → Q a
unfolding Post
Post_ok Q (w, ok b) a q e = subst Q (ok_inj e) q
  where
    ok_inj : {E A : Type 0} {a b : A} → ◌≡◌ {A = Result E A} (ok a) (ok b) → a ≡ b
    ok_inj e = cc
Post_ok Q (w, err x) a q e = cc

answer-Post :
    {A : Type 0} {Q : A → Type 0} (w : World) (r : Result Error A)
    → ((a : A) → r ≡ ok a → Q a)
    → Post Q (w, r)
unfolding Post
answer-Post w (ok a) f = f a refl
answer-Post w (err e) f = tt

-- What an answer always meets.
pub Returns-query :
    {A : Type 0} (Q : A → Type 0) (call : String) (answer : History → Result Error A)
    → ((h : History) (a : A) → answer h ≡ ok a → Q a)
    → Returns Q (query call answer)
Returns-query Q call answer k = record {
  at = λ w. answer-Post (log w (read call)) (answer w.history) (k w.history);
}

guarded-Extends :
    {P : Event → Type 0} {E A B : Type 0} {Q : A → Type 0} (h : History) (p : World × Result E A)
    (f : A → Exec E B)
    → Extends P h p.0.history
    → Post Q p
    → ((a : A) → Q a → Emits P (f a))
    → Extends P h (continue p f).0.history
unfolding Post
guarded-Extends h (w, ok a) f x q k = Extends-trans x ((k a q).at w)
guarded-Extends h (w, err e) f x q k = x

-- What the second part writes may depend on what holds of the value of the first.
pub Emits-behind :
    {P : Event → Type 0} {E A B : Type 0} {Q : A → Type 0} (m : Exec E A) (f : A → Exec E B)
    → Emits P m
    → Returns Q m
    → ((a : A) → Q a → Emits P (f a))
    → Emits P (m >>= f)
Emits-behind m f e q k = record { at = λ w. guarded-Extends w.history (m w) f (e.at w) (q.at w) k }

-- What holds of a value, as far as there is one.
unfoldable pub OfOk : {A : Type 0} → (A → Type 0) → Result Error A → Type 0
OfOk Q (ok a) = Q a
OfOk Q (err e) = Unit {0}

caught-Post :
    {A : Type 0} (Q : A → Type 0) (p : World × Result Error A) → Post Q p → Post (OfOk Q) (caught p)
unfolding Post OfOk
caught-Post Q (w, ok a) q = q
caught-Post Q (w, err panic) q = tt
caught-Post Q (w, err not_found) q = tt
caught-Post Q (w, err conflict) q = tt
caught-Post Q (w, err (api s)) q = tt
caught-Post Q (w, err (failed s)) q = tt

pub Returns-attempt :
    {A : Type 0} {Q : A → Type 0} (m : M A) → Returns Q m → Returns (OfOk Q) (attempt m)
Returns-attempt {Q = Q} m k = record { at = λ w. caught-Post Q (m w) (k.at w) }

pub Returns-raise : {E A : Type 0} {Q : A → Type 0} (e : E) → Returns Q (raise e)
unfolding Post
Returns-raise e = record { at = λ w. tt }

retried-Post :
    {A : Type 0} {Q : A → Type 0} (again : M A) (p : World × Result Error A)
    → Returns Q again
    → Post Q p
    → Post Q (retried again p)
unfolding Post
retried-Post again (w, ok a) k x = x
retried-Post again (w, err conflict) k x = k.at w
retried-Post again (w, err not_found) k x = x
retried-Post again (w, err panic) k x = x
retried-Post again (w, err (api s)) k x = x
retried-Post again (w, err (failed s)) k x = x

pub Returns-on_conflict :
    {A : Type 0} {Q : A → Type 0} (n : ℕ) (m : M A) → Returns Q m → Returns Q (on_conflict n m)
unfolding on_conflict
Returns-on_conflict zero m k = k
Returns-on_conflict (suc n) m k = record {
  at = λ w.
      retried-Post (λ v. on_conflict n m v) (m w)
        (record { at = λ v. (Returns-on_conflict n m k).at v }) (k.at w);
}
