-- ===== src/Strings/Numbers/RoundTrip.antt =====
-- Every uint64 is read back from its decimal print, so that no two have one print.
use mathlib.Core.WellFounded
use mathlib.Core.WellFounded.{Acc, Acc-prop}
use k8s_pod_oom_oracle.Base.{
  ℕ, ◌+◌, ◌/◌, ◌%◌, ◌^◌, ◌<◌, ◌≡◌, ◌≢◌, ◌∙◌, ◌*◌, refl, pos, false, ◌==◌, some, [], ◌∷◌, Str, arith,
  ite, dite, dec_lt,
}
use k8s_pod_oom_oracle.Strings.Numbers.{
  digits_from, parse_decimal, signed, atoi, less_wf, shorter, digits_of, decimal,
}

unrolled :
    (n : ℕ) (w : Acc ◌<◌ n) (v : Acc ◌<◌ (n / 10)) (out : Str)
    → digits_of n w out
      ≡ ite (dec_lt 9 n) (digits_of (n / 10) v ((b'0' + n % 10) ∷ out)) ((b'0' + n) ∷ out)
unfolding digits_of
unrolled n (Acc.intro _ below) v out = λ i.
    dite (dec_lt 9 n)
      (λ more.
        digits_of (n / 10) (Acc-prop (below (n / 10) (shorter n more)) v i) ((b'0' + n % 10) ∷ out))
      (λ last. (b'0' + n) ∷ out)

abbrev front : ℕ → Str → Str
front n out = digits_of n (less_wf.apply n) out

front_step :
    (n : ℕ) (out : Str)
    → front n out ≡ ite (dec_lt 9 n) (front (n / 10) ((b'0' + n % 10) ∷ out)) ((b'0' + n) ∷ out)
front_step n out = unrolled n _ _ out

one_digit :
    (n m : ℕ) (out : Str)
    → n < 10
    → m * 10 + n < 2 ^ 64
    → digits_from m ((b'0' + n) ∷ out) ≡ digits_from (m * 10 + n) out
unfolding digits_from
one_digit n m out h fits = ground arith

digits_from-front :
    (n : ℕ) (out : Str) → n < 2 ^ 64 → digits_from 0 (front n out) ≡ digits_from n out
digits_from-front n =
    WellFounded.induction less_wf
      {C = λ m. (out : Str) → m < 2 ^ 64 → digits_from 0 (front m out) ≡ digits_from m out} n
      λ m ih out fits.
        grind
          (arith, front_step m out, one_digit m 0 out, one_digit (m % 10) (m / 10) out, ih (m / 10))

front-ne-nil : (n : ℕ) (out : Str) → front n out ≢ []
front-ne-nil n =
    WellFounded.induction less_wf {C = λ m. (out : Str) → front m out ≢ []} n
      λ m ih out. grind (arith, front_step m out, ih (m / 10))

parse_of_ne_nil : (s : Str) → s ≢ [] → parse_decimal s ≡ digits_from 0 s
unfolding parse_decimal
parse_of_ne_nil [] h = absurd (h refl)
parse_of_ne_nil (c ∷ s) h = refl

pub parse_decimal-decimal : (n : ℕ) → n < 2 ^ 64 → parse_decimal (decimal n) ≡ some n
unfolding decimal digits_from
parse_decimal-decimal n h =
    parse_of_ne_nil (front n []) (front-ne-nil n []) ∙ digits_from-front n [] h ∙ nothing_left n
  where
    nothing_left : (n : ℕ) → digits_from n [] ≡ some n
    nothing_left n = refl

starts_with_digit :
    (c : ℕ) (s : Str) (n : ℕ)
    → parse_decimal (c ∷ s) ≡ some n
    → (c == b'-' ≡ false) × (c == b'+' ≡ false)
unfolding parse_decimal digits_from
starts_with_digit c s n h = ground arith

signed-fits : (n : ℕ) → n < 2 ^ 63 → signed false (some n) ≡ some (pos n)
unfolding signed
signed-fits n h = ground arith

atoi-of_parse : (s : Str) (n : ℕ) → parse_decimal s ≡ some n → n < 2 ^ 63 → atoi s ≡ some (pos n)
unfolding atoi
atoi-of_parse [] n h fits = absurd (no_digits h)
  where
    no_digits : parse_decimal [] ≡ some n → ⊥
    no_digits h = unfold parse_decimal in cc
atoi-of_parse (c ∷ s) n h fits =
    let (minus, plus) = starts_with_digit c s n h in rw (atoi, minus, plus, h) (signed-fits n fits)

-- Every int that is not negative is read back by Atoi.
pub atoi-decimal : (n : ℕ) → n < 2 ^ 63 → atoi (decimal n) ≡ some (pos n)
atoi-decimal n h = atoi-of_parse (decimal n) n (parse_decimal-decimal n (omega arith)) h
