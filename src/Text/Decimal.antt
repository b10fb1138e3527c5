-- ===== src/Text/Decimal.antt =====
-- Printing a number in decimal and reading it back.
use Prim.Native.Char.{code}
use opensearch_k8s_operator.Prelude.{
  ℕ, zero, suc, ◌+◌, ◌-◌, ◌*◌, ◌/◌, ◌%◌, ◌<◌, ◌≡◌, refl, ◌≢◌, ◌∙◌, ap, true, false, ◌&&◌, some, inl,
  inr, String, arith, ltb, lt→ltb, leb, nat_eq, Bool-cases,
}
use opensearch_k8s_operator.Prelude.Int.{pos}
use opensearch_k8s_operator.Text.{digit, show_digits, show_ℕ, digits_value, atoi, in_range}
use opensearch_k8s_operator.Text.Split.{Lacks}

code-digit : (d : ℕ) → d < 10 → code (digit d) ≡ 48 + d
unfolding digit
code-digit zero h = refl
code-digit (suc zero) h = refl
code-digit (suc (suc zero)) h = refl
code-digit (suc (suc (suc zero))) h = refl
code-digit (suc (suc (suc (suc zero)))) h = refl
code-digit (suc (suc (suc (suc (suc zero))))) h = refl
code-digit (suc (suc (suc (suc (suc (suc zero)))))) h = refl
code-digit (suc (suc (suc (suc (suc (suc (suc zero))))))) h = refl
code-digit (suc (suc (suc (suc (suc (suc (suc (suc zero)))))))) h = refl
code-digit (suc (suc (suc (suc (suc (suc (suc (suc (suc zero))))))))) h = refl
code-digit (suc (suc (suc (suc (suc (suc (suc (suc (suc (suc n)))))))))) h = absurd (omega arith)

digit_test : (k d : ℕ) → d < 10 → k ≡ 48 + d → (leb 48 k && leb k 57) ≡ true
digit_test k d h e = ground arith

digits_value-digit :
    (d n : ℕ) (s : String)
    → d < 10
    → digits_value (String.◌∷◌ (digit d) s) n ≡ digits_value s (n * 10 + d)
unfolding digits_value
digits_value-digit d n s h =
    let value : n * 10 + (code (digit d) - 48) ≡ n * 10 + d = omega (arith, code-digit d h) in
    rw (digit_test (code (digit d)) d h (code-digit d h)) (ap (digits_value s) value)

-- Reading what `show_digits` wrote goes on with the number.
digits_value-show_digits :
    (fuel n : ℕ) (out : String)
    → n < fuel
    → digits_value (show_digits fuel n out) 0 ≡ digits_value out n
unfolding show_digits
digits_value-show_digits zero n out h = absurd (omega arith)
digits_value-show_digits (suc fuel) n out h = elim (Bool-cases (ltb n 10)) [
  | inl e ↦ rw e (digits_value-digit n 0 out (ground arith) ∙ ap (digits_value out) (omega arith))
  | inr e ↦
      let last : digits_value (String.◌∷◌ (digit (n % 10)) out) (n / 10) ≡ digits_value out n =
        digits_value-digit (n % 10) (n / 10) out (omega arith)
        ∙ ap (digits_value out) (omega arith) in
      rw e (digits_value-show_digits fuel (n / 10) _ (ground arith) ∙ last)
]

show_digits-Lacks :
    (fuel n sep : ℕ) (out : String) → sep < 48 → Lacks sep out → Lacks sep (show_digits fuel n out)
unfolding show_digits
show_digits-Lacks zero n sep out h l = l
show_digits-Lacks (suc fuel) n sep out h l = elim (Bool-cases (ltb n 10)) [
  | inl e ↦ rw e (omega (arith, code-digit n (ground arith)), l)
  | inr e ↦ rw e (
      show_digits-Lacks fuel (n / 10) sep (String.◌∷◌ (digit (n % 10)) out) h
        (omega (arith, code-digit (n % 10) (omega arith)), l))
]

-- A printed number holds no character below the digits, such as a dash or a comma.
pub show_ℕ-Lacks : (n sep : ℕ) → sep < 48 → Lacks sep (show_ℕ n)
unfolding show_ℕ
show_ℕ-Lacks n sep h = show_digits-Lacks (suc n) n sep "" h tt

digits_value-show_ℕ : (n : ℕ) → digits_value (show_ℕ n) 0 ≡ some n
digits_value-show_ℕ n =
    unfold show_ℕ in
    digits_value-show_digits (suc n) n "" (omega arith) ∙ (unfold digits_value in refl)

show_digits_head : (fuel n : ℕ) (out : String) → n < fuel → show_digits fuel n out ≢ ""
unfolding show_digits
show_digits_head zero n out h = absurd (omega arith)
show_digits_head (suc fuel) n out h = elim (Bool-cases (ltb n 10)) [
  | inl e ↦ rw e (cc)
  | inr e ↦ rw e (show_digits_head fuel (n / 10) _ (ground arith))
]

pub show_ℕ-ne-nil : (n : ℕ) → show_ℕ n ≢ ""
unfolding show_ℕ
show_ℕ-ne-nil n = show_digits_head (suc n) n "" (omega arith)

not_code : (k m : ℕ) → k ≢ m → nat_eq k m ≡ false
not_code k m h = ground arith

fits : (n : ℕ) → n < 9223372036854775808 → in_range false (some n) ≡ some (pos n)
fits n h = rw (lt→ltb n 9223372036854775808 h)

-- A text that begins with no sign is read as digits.
atoi_of_Lacks :
    (s : String) (n : ℕ)
    → s ≢ ""
    → Lacks 45 s
    → Lacks 43 s
    → digits_value s 0 ≡ some n
    → n < 9223372036854775808
    → atoi s ≡ some (pos n)
unfolding atoi
atoi_of_Lacks String.[] n ne a b e h = absurd (ne refl)
atoi_of_Lacks (String.◌∷◌ c s) n ne a b e h =
    rw (not_code (code c) 45 a.0, not_code (code c) 43 b.0, e) (fits n h)

-- Every number that fits an int64 is read back from its decimal print.
pub atoi-show_ℕ : (n : ℕ) → n < 9223372036854775808 → atoi (show_ℕ n) ≡ some (pos n)
atoi-show_ℕ n h =
    atoi_of_Lacks (show_ℕ n) n (show_ℕ-ne-nil n) (show_ℕ-Lacks n 45 (omega arith))
      (show_ℕ-Lacks n 43 (omega arith)) (digits_value-show_ℕ n) h
