-- ===== src/Combined/Laws.antt =====
-- The order in which results are combined, and what the combined result asks for.
use opensearch_k8s_operator.Prelude.{
  ℕ, ◌≡◌, ◌∙◌, ◌↔◌, ◌≤◌, ◌<◌, ◌⊎◌, refl, sym, ap, Bool, true, false, ◌||◌, Option, none, some,
  arith, if◌then◌else◌, ltb, nat_eq,
}
use opensearch_k8s_operator.Api.{Error, Outcome}
use opensearch_k8s_operator.Combined.{CombinedResult, combine, combine_err, merge}

combine-result :
    (c : CombinedResult) (sub : Outcome) (e : Option Error)
    → (combine c (some sub) e).result ≡ merge c.result sub
unfolding combine combine_err
combine-result c sub none = refl
combine-result c sub (some e) = refl

-- The sooner of two delays, where zero means none.
abbrev sooner : ℕ → ℕ → ℕ
sooner r s = if ltb 0 s then (if nat_eq r 0 || ltb s r then s else r) else r

sooner_lem :
    (r s : ℕ)
    → ((sooner r s ≡ 0) ↔ ((r ≡ 0) × (s ≡ 0)))
      × (0 < r → sooner r s ≤ r)
      × (0 < s → sooner r s ≤ s)
      × ((sooner r s ≡ r) ⊎ (sooner r s ≡ s))
sooner_lem r s = ground arith

sooner_swap : (r s t : ℕ) → sooner (sooner r s) t ≡ sooner (sooner r t) s
sooner_swap r s t = ground arith

or_swap :
    (a b c : Bool)
    → (if c then true else if b then true else a) ≡ (if b then true else if c then true else a)
or_swap a true true = refl
or_swap a true false = refl
or_swap a false true = refl
or_swap a false false = refl

or_if : (a b : Bool) → (if b then true else a) ≡ b || a
or_if a true = refl
or_if a false = refl

-- For all results, delays and errors: the combination asks to requeue if one of the two does; it
-- has no delay exactly if neither has one; its delay is one of the two, and no later than either
-- that is not zero.
pub combine-soonest :
    (c : CombinedResult) (sub : Outcome) (e : Option Error)
    → (let r = (combine c (some sub) e).result in
        (r.requeue ≡ sub.requeue || c.result.requeue)
        × ((r.requeue_after ≡ 0) ↔ ((c.result.requeue_after ≡ 0) × (sub.requeue_after ≡ 0)))
        × (0 < c.result.requeue_after → r.requeue_after ≤ c.result.requeue_after)
        × (0 < sub.requeue_after → r.requeue_after ≤ sub.requeue_after)
        × ((r.requeue_after ≡ c.result.requeue_after) ⊎ (r.requeue_after ≡ sub.requeue_after)))
combine-soonest c sub e =
    let (a, b, d, f) = sooner_lem c.result.requeue_after sub.requeue_after in
    let r = combine-result c sub e in rw r (or_if c.result.requeue sub.requeue, a, b, d, f)

-- Two results give the same combined result in both orders, whatever errors come with them.
pub combine-swap :
    (c : CombinedResult) (a b : Outcome) (ea eb : Option Error)
    → (combine (combine c (some a) ea) (some b) eb).result
      ≡ (combine (combine c (some b) eb) (some a) ea).result
combine-swap c a b ea eb =
    combine-result (combine c (some a) ea) b eb
    ∙ ap (λ r. merge r b) (combine-result c a ea)
    ∙ (λ i. record {
      requeue = or_swap c.result.requeue a.requeue b.requeue i;
      requeue_after = sooner_swap c.result.requeue_after a.requeue_after b.requeue_after i;
    })
    ∙ ap (λ r. merge r a) (sym (combine-result c b eb))
    ∙ sym (combine-result (combine c (some b) eb) a ea)
