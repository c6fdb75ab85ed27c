-- ===== src/Money/Trim.antt =====
-- White space round an amount.
use mib_server.Prelude.{
  ◌||◌, and-eq-true, any, all, ℕ, ◌≡◌, refl, true, false, [], ◌∷◌, ◌++◌, arith,
}
use mib_server.Money.{keep_unless_space, trim, trim_end, trim_start, is_space, Codes, is_digit}

pub any-append : (s t : Codes) → any is_space (s ++ t) ≡ (any is_space s || any is_space t)
any-append [] t = refl
any-append (c ∷ s) t = ground (arith, any-append s t)

pub any_space-after_dot :
    (c d : ℕ) → is_digit c ≡ true → is_digit d ≡ true → any is_space (b'.' ∷ c ∷ d ∷ []) ≡ false
unfolding is_space
any_space-after_dot c d hc hd = ground arith

trim_end-spaces : (after : Codes) → all is_space after ≡ true → trim_end after ≡ []
trim_end-spaces [] h = refl
trim_end-spaces (c ∷ after) h =
    let (here, rest) = and-eq-true (is_space c) (all is_space after) h in
    rw (trim_end-spaces after rest) (rw here refl)

trim_end-padded :
    (s after : Codes)
    → any is_space s ≡ false
    → all is_space after ≡ true
    → trim_end (s ++ after) ≡ s
trim_end-padded [] after h spaces = trim_end-spaces after spaces
trim_end-padded (c ∷ s) after h spaces =
    let here : is_space c ≡ false = ground arith in
    let rest : any is_space s ≡ false = ground arith in
    rw (trim_end-padded s after rest spaces) (kept s here)
  where
    kept : (s : Codes) → is_space c ≡ false → keep_unless_space c s ≡ c ∷ s
    kept [] h = rw h refl
    kept (d ∷ s) h = refl

trim_start-padded :
    (before : Codes) (c : ℕ) (s : Codes)
    → all is_space before ≡ true
    → is_space c ≡ false
    → trim_start (before ++ (c ∷ s)) ≡ c ∷ s
trim_start-padded [] c s spaces h = rw h refl
trim_start-padded (b ∷ before) c s spaces h =
    let (here, rest) = and-eq-true (is_space b) (all is_space before) spaces in
    rw here (trim_start-padded before c s rest h)

pub any_space-digits : (s : Codes) → all is_digit s ≡ true → any is_space s ≡ false
unfolding is_space
any_space-digits [] h = refl
any_space-digits (c ∷ s) h = ground (arith, any_space-digits s)

pub trim-padded :
    (before : Codes) (c : ℕ) (s after : Codes)
    → all is_space before ≡ true
    → any is_space (c ∷ s) ≡ false
    → all is_space after ≡ true
    → trim (before ++ ((c ∷ s) ++ after)) ≡ c ∷ s
unfolding trim
trim-padded before c s after spaces h spaces' =
    let here : is_space c ≡ false = ground arith in
    rw (trim_start-padded before c (s ++ after) spaces here)
      (trim_end-padded (c ∷ s) after h spaces')
