-- ===== src/Money/RoundTrip.antt =====
-- Amounts that are formatted are read back.
use mib_server.Prelude.{
  ◌==◌, any, all, ℕ, ◌+◌, ◌/◌, ◌%◌, sym, subst, ◌≡◌, refl, true, false, [], ◌∷◌, ◌++◌, ok, arith,
}
use mib_server.Money.{
  without_sign, negate, suc, negsuc, pos, ℤ, format_amount_from_cents, yuan_string_to_cents,
  two_digits, unsigned_cents, to_fixed_2, is_unsigned, trim, is_space, is_after_digit, split_dot,
  Codes, is_digit, digits_value,
}
use mib_server.Money.Digits.{digits-IsDecimal}
use mib_server.Money.Trim.{any-append, any_space-digits, any_space-after_dot, trim-padded}

split_dot-digits : (s t : Codes) → all is_digit s ≡ true → split_dot (s ++ (b'.' ∷ t)) ≡ (s, t)
split_dot-digits [] t h = refl
split_dot-digits (c ∷ s) t h =
    let rest : split_dot (s ++ (b'.' ∷ t)) ≡ (s, t) = split_dot-digits s t (ground arith) in
    let other : (c == b'.') ≡ false = ground arith in rw other (rw rest refl)

is_after_digit-digits :
    (s : Codes) (c d : ℕ)
    → all is_digit s ≡ true
    → is_digit c ≡ true
    → is_digit d ≡ true
    → is_after_digit (s ++ (b'.' ∷ c ∷ d ∷ [])) ≡ true
is_after_digit-digits [] c d h hc hd = ground arith
is_after_digit-digits (x ∷ s) c d h hc hd = ground (arith, is_after_digit-digits s c d)

-- An unsigned amount is well formed and has its value.
record IsAmount (n : ℕ) (s : Codes) : Type 0 where
  first : ℕ
  others : Codes
  split : s ≡ first ∷ others
  first_is_digit : is_digit first ≡ true
  unsigned : is_unsigned s ≡ true
  no_space : any is_space s ≡ false
  value : unsigned_cents s ≡ n

decimal-IsAmount :
    (n first : ℕ) (others : Codes)
    → is_digit first ≡ true
    → all is_digit others ≡ true
    → digits_value 0 (first ∷ others) ≡ n / 100
    → IsAmount n (first ∷ (others ++ (b'.' ∷ two_digits (n % 100))))
unfolding unsigned_cents
decimal-IsAmount n first others h hs value =
    let tens : is_digit (b'0' + n % 100 / 10 % 10) ≡ true = ground arith in
    let ones : is_digit (b'0' + n % 100 % 10) ≡ true = ground arith in
    let parts : split_dot ((first ∷ others) ++ (b'.' ∷ two_digits (n % 100)))
        ≡ (first ∷ others, two_digits (n % 100)) =
      split_dot-digits (first ∷ others) (two_digits (n % 100)) (ground arith) in
    record {
      first = first;
      others = others ++ (b'.' ∷ two_digits (n % 100));
      split = refl;
      first_is_digit = h;
      unsigned = rw h (is_after_digit-digits others _ _ hs tens ones);
      no_space = rw (any-append (first ∷ others) (b'.' ∷ two_digits (n % 100))) (
          rw (any_space-digits (first ∷ others) (ground arith))
            (any_space-after_dot _ _ tens ones));
      value = rw parts (omega arith);
    }

to_fixed_2-IsAmount : (n : ℕ) → IsAmount n (to_fixed_2 n)
unfolding to_fixed_2
to_fixed_2-IsAmount n =
    let d = digits-IsDecimal (n / 100) (b'.' ∷ two_digits (n % 100)) in
    subst (IsAmount n) (sym d.split)
      (decimal-IsAmount n d.first d.others d.first_is_digit d.others_are_digits d.value)

read_amount :
    (n : ℕ) (s : Codes) (before after : Codes)
    → IsAmount n s
    → all is_space before ≡ true
    → all is_space after ≡ true
    → yuan_string_to_cents (before ++ (s ++ after)) ≡ ok (pos n)
unfolding yuan_string_to_cents
read_amount n s before after a spaces spaces' =
    let trimmed : trim (before ++ (s ++ after)) ≡ s =
      subst (λ (t : Codes). any is_space t ≡ false → trim (before ++ (t ++ after)) ≡ t)
        (sym a.split) (λ h. trim-padded before a.first a.others after spaces h spaces')
        a.no_space in
    let no_sign : (a.first == b'-') ≡ false = ground (arith, a.first_is_digit) in
    let unsigned : without_sign s ≡ (false, s) =
      subst (λ (t : Codes). without_sign t ≡ (false, t)) (sym a.split) (rw no_sign refl) in
    rw trimmed (rw unsigned (rw a.unsigned (rw a.value refl)))

read_negative_amount :
    (n : ℕ) (s : Codes) (before after : Codes)
    → IsAmount n s
    → all is_space before ≡ true
    → all is_space after ≡ true
    → yuan_string_to_cents (before ++ ((b'-' ∷ s) ++ after)) ≡ ok (negate n)
unfolding yuan_string_to_cents is_space
read_negative_amount n s before after a spaces spaces' =
    rw (trim-padded before b'-' s after spaces a.no_space spaces') (rw a.unsigned (rw a.value refl))

-- An amount that is formatted is read back as itself, with any white space around it.
pub yuan_string_to_cents-format :
    (n : ℤ) (before after : Codes)
    → all is_space before ≡ true
    → all is_space after ≡ true
    → yuan_string_to_cents (before ++ (format_amount_from_cents n ++ after)) ≡ ok n
unfolding format_amount_from_cents
yuan_string_to_cents-format (pos n) before after spaces spaces' =
    read_amount n (to_fixed_2 n) before after (to_fixed_2-IsAmount n) spaces spaces'
yuan_string_to_cents-format (negsuc n) before after spaces spaces' =
    read_negative_amount (suc n) (to_fixed_2 (suc n)) before after (to_fixed_2-IsAmount (suc n))
      spaces spaces'
