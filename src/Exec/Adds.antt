-- ===== src/Exec/Adds.antt =====
-- How often an action may write, as a bound on the weight that it adds to the history.
use opensearch_k8s_operator.Prelude.{
  ℕ, zero, suc, ◌+◌, ◌*◌, ◌≤◌, ◌≡◌, refl, Bool, true, false, [], ◌∷◌, ◌++◌, Option, arith,
  if◌then◌else◌, All,
}
use opensearch_k8s_operator.Api.{Error, not_found, conflict, panic, api, failed}
use opensearch_k8s_operator.Exec.{
  Event, History, World, Result, ok, err, Exec, M, continue, ◌>>=◌, caught, attempt, tagged,
  failing, command, accepted, retried, on_conflict,
}
use opensearch_k8s_operator.Exec.Emits.{Emits}

unfoldable pub total : (Event → ℕ) → History → ℕ
total weight [] = 0
total weight (e ∷ es) = weight e + total weight es

pub record Adds {E A : Type 0} (weight : Event → ℕ) (n : ℕ) (m : Exec E A) : Type 0 where
  pub at : (w : World) → total weight (m w).0.history ≤ total weight w.history + n

total-append :
    (weight : Event → ℕ) (es h : History)
    → All (λ e. weight e ≡ 0) es
    → total weight (es ++ h) ≡ total weight h
unfolding total
total-append weight [] h u = refl
total-append weight (e ∷ es) h u = omega (arith, u.0, total-append weight es h u.1)

caught-Adds :
    {A : Type 0} (weight : Event → ℕ) (n : ℕ) (p : World × Result Error A)
    → total weight p.0.history ≤ n
    → total weight (caught p).0.history ≤ n
caught-Adds weight n (w, ok a) x = x
caught-Adds weight n (w, err panic) x = x
caught-Adds weight n (w, err not_found) x = x
caught-Adds weight n (w, err conflict) x = x
caught-Adds weight n (w, err (api s)) x = x
caught-Adds weight n (w, err (failed s)) x = x

tagged-Adds :
    {X E A : Type 0} (weight : Event → ℕ) (n : ℕ) (x : X) (p : World × Result E A)
    → total weight p.0.history ≤ n
    → total weight (tagged x p).0.history ≤ n
tagged-Adds weight n x (w, ok a) y = y
tagged-Adds weight n x (w, err e) y = y

module _ {weight : Event → ℕ} where
  -- An action whose events weigh nothing adds nothing.
  pub Adds-Emits :
      {E A : Type 0} (m : Exec E A) (n : ℕ) → Emits (λ e. weight e ≡ 0) m → Adds weight n m
  Adds-Emits m n k = record {
    at = λ w. let (es, p, u) = k.at w in rw p (omega (arith, total-append weight es w.history u));
  }

  continue-Adds :
      {E A B : Type 0} (h b c : ℕ) (p : World × Result E A) (f : A → Exec E B)
      → total weight p.0.history ≤ h + b
      → ((a : A) → Adds weight c (f a))
      → total weight (continue p f).0.history ≤ h + (b + c)
  continue-Adds h b c (w, ok a) f x k = omega (arith, (k a).at w)
  continue-Adds h b c (w, err e) f x k = omega arith

  pub Adds-bind :
      {E A B : Type 0} (b c : ℕ) (m : Exec E A) (f : A → Exec E B)
      → Adds weight b m
      → ((a : A) → Adds weight c (f a))
      → Adds weight (b + c) (m >>= f)
  Adds-bind b c m f km kf = record {
    at = λ w. continue-Adds (total weight w.history) b c (m w) f (km.at w) kf;
  }

  -- A first part that weighs nothing.
  pub Adds-behind :
      {E A B : Type 0} (c : ℕ) (m : Exec E A) (f : A → Exec E B)
      → Emits (λ e. weight e ≡ 0) m
      → ((a : A) → Adds weight c (f a))
      → Adds weight c (m >>= f)
  Adds-behind c m f km kf = record {
    at = λ w.
        omega
          (arith, continue-Adds (total weight w.history) 0 c (m w) f ((Adds-Emits m 0 km).at w) kf);
  }

  pub Adds-before :
      {E A B : Type 0} (b : ℕ) (m : Exec E A) (f : A → Exec E B)
      → Adds weight b m
      → ((a : A) → Emits (λ e. weight e ≡ 0) (f a))
      → Adds weight b (m >>= f)
  Adds-before b m f km kf = record {
    at = λ w. omega (
      arith,
      continue-Adds (total weight w.history) b 0 (m w) f (km.at w) (λ a. Adds-Emits (f a) 0 (kf a)),
    );
  }

  pub Adds-command :
      (event : Bool → Event) (answer : History → Option Error) (n : ℕ)
      → ((b : Bool) → weight (event b) ≤ n)
      → Adds weight n (command event answer)
  unfolding total
  Adds-command event answer n h = record {
    at = λ w. omega (arith, h (accepted (answer w.history)));
  }

  pub Adds-attempt : {A : Type 0} (n : ℕ) (m : M A) → Adds weight n m → Adds weight n (attempt m)
  Adds-attempt n m k = record {
    at = λ w. caught-Adds weight (total weight w.history + n) (m w) (k.at w);
  }

  pub Adds-failing :
      {X E A : Type 0} (n : ℕ) (x : X) (m : Exec E A)
      → Adds weight n m
      → Adds weight n (failing x m)
  Adds-failing n x m k = record {
    at = λ w. tagged-Adds weight (total weight w.history + n) x (m w) (k.at w);
  }

  pub Adds-if :
      {E A : Type 0} (n : ℕ) (b : Bool) (l r : Exec E A)
      → Adds weight n l
      → Adds weight n r
      → Adds weight n (if b then l else r)
  Adds-if n true l r kl kr = kl
  Adds-if n false l r kl kr = kr

  retried-Adds :
      {A : Type 0} (h b c : ℕ) (again : M A) (p : World × Result Error A)
      → total weight p.0.history ≤ h + b
      → Adds weight c again
      → total weight (retried again p).0.history ≤ h + (b + c)
  retried-Adds h b c again (w, ok a) x k = omega arith
  retried-Adds h b c again (w, err conflict) x k = omega (arith, k.at w)
  retried-Adds h b c again (w, err not_found) x k = omega arith
  retried-Adds h b c again (w, err panic) x k = omega arith
  retried-Adds h b c again (w, err (api s)) x k = omega arith
  retried-Adds h b c again (w, err (failed s)) x k = omega arith

  -- The first try, and each further one, adds what one try adds.
  pub Adds-on_conflict :
      {A : Type 0} (n b : ℕ) (m : M A)
      → Adds weight b m
      → Adds weight ((n + 1) * b) (on_conflict n m)
  unfolding on_conflict
  Adds-on_conflict zero b m k = record { at = λ w. grind (arith, k.at w) }
  Adds-on_conflict (suc n) b m k = record {
    at = λ w. grind (
      arith,
      retried-Adds (total weight w.history) b ((n + 1) * b) (λ v. on_conflict n m v) (m w) (k.at w)
          (record { at = λ v. (Adds-on_conflict n b m k).at v }),
    );
  }
