-- ===== src/Money/Digits.antt =====
-- The decimal digits that `toFixed` prints.
use mib_server.Prelude.{
  ap, all, ◌∙◌, ℕ, ◌+◌, ◌/◌, ◌%◌, ◌*◌, ◌<◌, ◌-◌, ◌&&◌, sym, subst, ◌≡◌, refl, true, [], ◌∷◌, ◌++◌,
  arith,
}
use mathlib.Core.Logic.{ite, dite}
use mathlib.Core.WellFounded
use mathlib.Core.WellFounded.{Acc, Acc-prop}
use native.Mathlib.Decide.{dec_lt}
use mib_server.Money.{Codes, emit, digits, less_than_wf, tenth_lt, is_digit, digits_value}

-- One round of the loop; any two proofs of `Acc` are equal.
emit_step :
    (n : ℕ) (w : Acc ◌<◌ n) (w' : Acc ◌<◌ (n / 10)) (out : Codes)
    → emit n w out ≡ ite (dec_lt 9 n) (emit (n / 10) w' ((b'0' + n % 10) ∷ out)) ((b'0' + n) ∷ out)
unfolding emit
emit_step n (Acc.intro _ below) w' out = λ i.
    dite (dec_lt 9 n)
      (λ h. emit (n / 10) (Acc-prop (below (n / 10) (tenth_lt h)) w' i) ((b'0' + n % 10) ∷ out))
      (λ _. (b'0' + n) ∷ out)

digits_step :
    (n : ℕ) (out : Codes)
    → digits n out ≡ ite (dec_lt 9 n) (digits (n / 10) ((b'0' + n % 10) ∷ out)) ((b'0' + n) ∷ out)
unfolding digits
digits_step n = emit_step n (less_than_wf.apply n) (less_than_wf.apply (n / 10))

-- Digits before a text begin with a digit, and are a list of digits before it, of the value.
pub record IsDecimal (n : ℕ) (out s : Codes) : Type 0 where
  pub first : ℕ
  pub others : Codes
  pub split : s ≡ first ∷ (others ++ out)
  pub first_is_digit : is_digit first ≡ true
  pub others_are_digits : all is_digit others ≡ true
  pub value : digits_value 0 (first ∷ others) ≡ n

digits_value-append :
    (n : ℕ) (s t : Codes) → digits_value n (s ++ t) ≡ digits_value (digits_value n s) t
digits_value-append n [] t = refl
digits_value-append n (c ∷ s) t = digits_value-append (n * 10 + (c - b'0')) s t

all-append : (s t : Codes) → all is_digit (s ++ t) ≡ (all is_digit s && all is_digit t)
all-append [] t = refl
all-append (c ∷ s) t = ground (arith, all-append s t)

append_assoc : (s t u : Codes) → (s ++ t) ++ u ≡ s ++ (t ++ u)
append_assoc [] t u = refl
append_assoc (c ∷ s) t u = ap (λ (l : Codes). c ∷ l) (append_assoc s t u)

-- The last digit moves from the text to the digits before it.
with_last :
    (n : ℕ) (out s : Codes)
    → 9 < n
    → IsDecimal (n / 10) ((b'0' + n % 10) ∷ out) s
    → IsDecimal n out s
with_last n out s h d = record {
  first = d.first;
  others = d.others ++ ((b'0' + n % 10) ∷ []);
  split =
      d.split
      ∙ ap (λ (l : Codes). d.first ∷ l) (sym (append_assoc d.others ((b'0' + n % 10) ∷ []) out));
  first_is_digit = d.first_is_digit;
  others_are_digits =
      ground (arith, all-append d.others ((b'0' + n % 10) ∷ []), d.others_are_digits);
  value =
      let before : digits_value 0 (d.first ∷ d.others) ≡ n / 10 = d.value in
      digits_value-append 0 (d.first ∷ d.others) ((b'0' + n % 10) ∷ []) ∙ omega arith;
}

pub digits-IsDecimal : (n : ℕ) (out : Codes) → IsDecimal n out (digits n out)
digits-IsDecimal n =
    WellFounded.induction less_than_wf {C = λ m. (out : Codes) → IsDecimal m out (digits m out)} n
      λ m ih out. by_size m ih out (dec_lt 9 m)
  where
    by_size :
        (m : ℕ)
        → ((k : ℕ) → k < m → (out : Codes) → IsDecimal k out (digits k out))
        → (out : Codes) → Dec (9 < m)
        → IsDecimal m out (digits m out)
    by_size m ih out (yes h) =
        let round : digits m out ≡ digits (m / 10) ((b'0' + m % 10) ∷ out) =
          ground (arith, digits_step m out) in
        with_last m out (digits m out) h (
          subst (IsDecimal (m / 10) ((b'0' + m % 10) ∷ out)) (sym round)
            (ih (m / 10) (tenth_lt h) ((b'0' + m % 10) ∷ out)))
    by_size m ih out (no h) =
        let round : digits m out ≡ (b'0' + m) ∷ out = ground (arith, digits_step m out) in
        record {
          first = b'0' + m;
          others = [];
          split = round;
          first_is_digit = ground arith;
          others_are_digits = refl;
          value = omega arith;
        }
