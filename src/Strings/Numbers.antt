-- ===== src/Strings/Numbers.antt =====
-- strconv: decimal numbers.
pub mod RoundTrip
use mathlib.Core.WellFounded.{Acc, WellFounded}
use k8s_pod_oom_oracle.Base.{
  ℕ, zero, suc, ◌+◌, ◌-◌, ◌*◌, ◌/◌, ◌%◌, ◌^◌, ◌<◌, Bool, true, false, ◌||◌, ◌&&◌, Option, none,
  some, [], ◌∷◌, Str, leb, ltb, ◌==◌, if◌then◌else◌, dite, dec_lt, arith, ℤ, pos, negsuc,
}

-- The digits of a number that fits 64 bits, behind the value `n`.
unfoldable pub digits_from : ℕ → Str → Option ℕ
digits_from n [] = some n
digits_from n (c ∷ s) =
    let m = n * 10 + (c - b'0') in
    let rest = digits_from m s in if leb b'0' c && leb c b'9' && ltb m (2 ^ 64) then rest else none

-- strconv.ParseUint(s, 10, 64), with `none` for an error.
unfoldable pub parse_decimal : Str → Option ℕ
unfolding digits_from
parse_decimal [] = none
parse_decimal (c ∷ s) = digits_from 0 (c ∷ s)

-- A value within int64.
unfoldable pub signed : Bool → Option ℕ → Option ℤ
signed negative none = none
signed false (some n) = if ltb n (2 ^ 63) then some (pos n) else none
signed true (some zero) = some (pos 0)
signed true (some (suc n)) = if ltb n (2 ^ 63) then some (negsuc n) else none

-- strconv.Atoi
unfoldable pub atoi : Str → Option ℤ
unfolding parse_decimal signed
atoi [] = none
atoi (c ∷ s) =
    if c == b'-'
    then signed true (parse_decimal s)
    else if c == b'+'
    then signed false (parse_decimal s)
    else signed false (parse_decimal (c ∷ s))

below_wf : (k n : ℕ) → n < k → Acc ◌<◌ n
below_wf zero n h = absurd (omega arith)
below_wf (suc k) n h = Acc.intro n λ m lt. below_wf k m (omega arith)

pub less_wf : WellFounded ◌<◌
unfolding below_wf
less_wf = record { apply = λ n. below_wf (suc n) n (omega arith) }

pub shorter : (n : ℕ) → 9 < n → n / 10 < n
shorter n h = omega arith

-- The digits of `n` in front of `out`.
pub digits_of : (n : ℕ) → Acc ◌<◌ n → Str → Str
digits_of n (Acc.intro _ below) out =
    dite (dec_lt 9 n)
      (λ more. digits_of (n / 10) (below (n / 10) (shorter n more)) ((b'0' + n % 10) ∷ out))
      (λ last. (b'0' + n) ∷ out)

-- strconv.FormatUint(n, 10), and strconv.Itoa on a number that is not negative.
unfoldable pub decimal : ℕ → Str
unfolding digits_of less_wf
decimal n = digits_of n (less_wf.apply n) []
