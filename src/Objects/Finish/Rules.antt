-- ===== src/Objects/Finish/Rules.antt =====
-- Rules for the actions that end early by raising what they end with.
use opensearch_k8s_operator.Prelude.{Bool, true, false, Option, none, some, String, if◌then◌else◌}
use opensearch_k8s_operator.Api.{Error}
use opensearch_k8s_operator.Exec.{
  Event, History, World, Result, ok, err, Exec, M, continue, ◌>>=◌, pure, raise,
}
use opensearch_k8s_operator.Exec.Emits.{Emits, Extends}
use opensearch_k8s_operator.Exec.Returns.{Post, Returns}
use opensearch_k8s_operator.Objects.Finish.{Finish, explained, or_return, settled, failure}

explained-Extends :
    {P : Event → Type 0} {A : Type 0} (h : History) (f : Error → String)
    (p : World × Result Error A)
    → Extends P h p.0.history
    → Extends P h (explained f p).0.history
explained-Extends h f (w, ok a) x = x
explained-Extends h f (w, err e) x = x

pub Emits-or_return :
    {P : Event → Type 0} {A : Type 0} (f : Error → String) (m : M A)
    → Emits P m
    → Emits P (or_return f m)
Emits-or_return f m k = record { at = λ w. explained-Extends w.history f (m w) (k.at w) }

explained-Post :
    {A : Type 0} (R : A → Type 0) (f : Error → String) (p : World × Result Error A)
    → Post R p
    → Post R (explained f p)
unfolding Post
explained-Post R f (w, ok a) x = x
explained-Post R f (w, err e) x = tt

pub Returns-or_return :
    {A : Type 0} {R : A → Type 0} (f : Error → String) (m : M A)
    → Returns R m
    → Returns R (or_return f m)
Returns-or_return {R} f m k = record { at = λ w. explained-Post R f (m w) (k.at w) }

settled-Extends :
    {P : Event → Type 0} (h : History) (p : World × Result Finish Finish)
    → Extends P h p.0.history
    → Extends P h (settled p).0.history
settled-Extends h (w, ok f) x = x
settled-Extends h (w, err f) x = x

pub Emits-settled :
    {P : Event → Type 0} (m : Exec Finish Finish) → Emits P m → Emits P (λ w. settled (m w))
Emits-settled m k = record { at = λ w. settled-Extends w.history (m w) (k.at w) }

-- What holds of an early end.
unfoldable pub Early : {A : Type 0} → (Finish → Type 0) → World × Result Finish A → Type 0
Early Q (w, ok a) = Unit {0}
Early Q (w, err f) = Q f

pub record Leaves {A : Type 0} (Q : Finish → Type 0) (m : Exec Finish A) : Type 0 where
  pub at : (w : World) → Early Q (m w)

explained-Early :
    {A : Type 0} (Q : Finish → Type 0) (f : Error → String) (p : World × Result Error A)
    → ((e : Error) → Q (failure (f e) e))
    → Early Q (explained f p)
unfolding Early
explained-Early Q f (w, ok a) q = tt
explained-Early Q f (w, err e) q = q e

settled-Post :
    (Q : Finish → Type 0) (p : World × Result Finish Finish)
    → Early Q p
    → Post Q p
    → Post Q (settled p)
unfolding Early Post
settled-Post Q (w, ok f) x y = y
settled-Post Q (w, err f) x y = x

module _ {Q : Finish → Type 0} where
  pub Leaves-pure : {A : Type 0} (a : A) → Leaves Q (pure a)
  unfolding Early
  Leaves-pure a = record { at = λ w. tt }

  pub Leaves-raise : {A : Type 0} (f : Finish) → Q f → Leaves {A = A} Q (raise f)
  unfolding Early
  Leaves-raise f q = record { at = λ w. q }

  continue-Early :
      {A B : Type 0} (p : World × Result Finish A) (f : A → Exec Finish B)
      → Early Q p
      → ((a : A) → Leaves Q (f a))
      → Early Q (continue p f)
  unfolding Early
  continue-Early (w, ok a) f x k = (k a).at w
  continue-Early (w, err e) f x k = x

  pub Leaves-bind :
      {A B : Type 0} (m : Exec Finish A) (f : A → Exec Finish B)
      → Leaves Q m
      → ((a : A) → Leaves Q (f a))
      → Leaves Q (m >>= f)
  Leaves-bind m f x k = record { at = λ w. continue-Early (m w) f (x.at w) k }

  pub Leaves-if :
      {A : Type 0} (b : Bool) (m n : Exec Finish A)
      → Leaves Q m
      → Leaves Q n
      → Leaves Q (if b then m else n)
  Leaves-if true m n x y = x
  Leaves-if false m n x y = y

  pub Leaves-option :
      {X A : Type 0} (o : Option X) (m : Exec Finish A) (f : X → Exec Finish A)
      → Leaves Q m
      → ((x : X) → Leaves Q (f x))
      → Leaves Q (elim o [ none ↦ m | some x ↦ f x ])
  Leaves-option none m f x k = x
  Leaves-option (some a) m f x k = k a

  pub Leaves-or_return :
      {A : Type 0} (f : Error → String) (m : M A)
      → ((e : Error) → Q (failure (f e) e))
      → Leaves Q (or_return f m)
  Leaves-or_return f m q = record { at = λ w. explained-Early Q f (m w) q }

  -- What holds of both ends holds of what the deferred function sees.
  pub Returns-settled :
      (m : Exec Finish Finish) → Leaves Q m → Returns Q m → Returns Q (λ w. settled (m w))
  Returns-settled m x y = record { at = λ w. settled-Post Q (m w) (x.at w) (y.at w) }
