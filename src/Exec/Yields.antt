-- ===== src/Exec/Yields.antt =====
-- That an action returns a value in every world: it neither fails nor returns another one.
use opensearch_k8s_operator.Prelude.{◌≡◌, refl, ap, ◌∙◌, Bool, true, false, if◌then◌else◌}
use opensearch_k8s_operator.Api.{Error}
use opensearch_k8s_operator.Exec.{
  read, History, World, Result, ok, Exec, M, continue, pure, ◌>>=◌, caught, attempt, lift, log,
  query,
}
use opensearch_k8s_operator.Prelude.{String}

pub record Yields {E A : Type 0} (a : A) (m : Exec E A) : Type 0 where
  pub at : (w : World) → (v : World) × (m w ≡ (v, ok a))

pub Yields-pure : {E A : Type 0} (a : A) → Yields {E = E} a (pure a)
Yields-pure a = record { at = λ w. (w, refl) }

pub Yields-bind :
    {E A B : Type 0} (a : A) (b : B) (m : Exec E A) (f : A → Exec E B)
    → Yields a m
    → Yields b (f a)
    → Yields b (m >>= f)
Yields-bind a b m f k l = record {
  at = λ w. let (v, e) = k.at w in let (u, d) = l.at v in (u, ap (λ p. continue p f) e ∙ d);
}

pub Yields-query :
    {A : Type 0} (a : A) (call : String) (answer : History → Result Error A)
    → ((h : History) → answer h ≡ ok a)
    → Yields a (query call answer)
Yields-query a call answer e = record {
  at = λ w. (log w (read call), ap (λ r. (log w (read call), r)) (e w.history));
}

pub Yields-lift : {E A : Type 0} (a : A) (r : Result E A) → r ≡ ok a → Yields a (lift r)
Yields-lift a r e = record { at = λ w. (w, ap (λ x. (w, x)) e) }

pub Yields-attempt : {A : Type 0} (a : A) (m : M A) → Yields a m → Yields (ok a) (attempt m)
Yields-attempt a m k = record { at = λ w. let (v, e) = k.at w in (v, ap caught e) }

pub Yields-if :
    {E A : Type 0} (a : A) (b : Bool) (m n : Exec E A)
    → (b ≡ true → Yields a m)
    → (b ≡ false → Yields a n)
    → Yields a (if b then m else n)
Yields-if a true m n km kn = km refl
Yields-if a false m n km kn = kn refl
