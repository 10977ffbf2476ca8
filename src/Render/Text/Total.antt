-- ===== src/Render/Text/Total.antt =====
-- Every report has a text: no panic is reached.
use k8s_pod_oom_oracle.Base.{
  ℕ, ◌≤◌, leb, ◌≡◌, refl, pos, true, false, inl, inr, Option, if◌then◌else◌, Bool-cases, some, List,
  [], ◌∷◌, ◌++◌, Str, arith,
}
use k8s_pod_oom_oracle.Float.{FloatOps}
use k8s_pod_oom_oracle.Oom.Report.{Report, TrajectoryPoint}
use k8s_pod_oom_oracle.Render.Rows.{trajectory_rows}
use k8s_pod_oom_oracle.Render.Rows.Kept.{AllOf, trajectory_rows-AllOf}
use k8s_pod_oom_oracle.Render.Text.{
  TextFormats, bar_width, repeat_text, both_parts, rest_of_bar, both, clamped, bar, with_bar,
  point_rows, rows_text, write_trajectory, text,
}

-- The code does not panic.
abbrev pub HasText : Option Str → Type 0
HasText o = (s : Str) × (o ≡ some s)

both-HasText : (a b : Option Str) → HasText a → HasText b → HasText (both a b)
unfolding both
both-HasText a b (s, e) (t, k) = rw (e, k) (s ++ t, refl)

meter-HasText :
    (n : ℕ) (a b : Str)
    → n ≤ bar_width
    → HasText (both_parts (repeat_text (pos n) a) (repeat_text (rest_of_bar (pos n)) b))
unfolding both_parts repeat_text rest_of_bar
meter-HasText n a b h = let fits : leb n bar_width ≡ true = ground arith in rw fits (_, refl)

-- What the text relies on of float64. An `x` with x <= x is one that is not NaN.
pub record FloatLaws {R : Type 0} (fl : FloatOps R) : Type 0 where
  pub zero_is_number : fl.le fl.zero_float fl.zero_float ≡ true
  pub one_is_number : fl.le fl.one_float fl.one_float ≡ true
  pub zero_le_one : fl.le fl.zero_float fl.one_float ≡ true
  pub le_of_not_lt :
      (x y : R) → fl.le x x ≡ true → fl.le y y ≡ true → fl.lt x y ≡ false → fl.le y x ≡ true
  -- Eighteen times a fraction is between zero and eighteen, and so is its whole part.
  pub part_of_bar :
      (x : R)
      → fl.le fl.zero_float x ≡ true
      → fl.le x fl.one_float ≡ true
      → (n : ℕ) × (fl.to_duration (fl.mul x (fl.of_uint 18)) ≡ pos n) × (n ≤ 18)

module _ {R : Type 0} ⦃fl : FloatOps R⦄ where
  -- The ratio is not NaN.
  abbrev pub IsNumber : TrajectoryPoint R → Type 0
  IsNumber p = fl.le p.ratio p.ratio ≡ true

  -- Whatever the ratio, what the bar shows is between zero and one.
  clamped-range :
      (laws : FloatLaws fl) (f : TextFormats R) (x : R)
      → fl.le x x ≡ true
      → (fl.le fl.zero_float (clamped f x) ≡ true) × (fl.le (clamped f x) fl.one_float ≡ true)
  unfolding clamped
  clamped-range laws f x h = elim (Bool-cases (fl.lt x fl.zero_float)) [
    | inl e ↦ rw e (capped fl.zero_float laws.zero_is_number laws.zero_is_number)
    | inr e ↦ rw e (capped x h (laws.le_of_not_lt x fl.zero_float h laws.zero_is_number e))
  ]
    where
      capped :
          (y : R)
          → fl.le y y ≡ true
          → fl.le fl.zero_float y ≡ true
          → (fl.le fl.zero_float (if fl.lt fl.one_float y then fl.one_float else y) ≡ true)
            × (fl.le (if fl.lt fl.one_float y then fl.one_float else y) fl.one_float ≡ true)
      capped y h k = elim (Bool-cases (fl.lt fl.one_float y)) [
        | inl e ↦ rw e (laws.zero_le_one, laws.one_is_number)
        | inr e ↦ rw e (k, laws.le_of_not_lt fl.one_float y laws.one_is_number h e)
      ]

  bar-HasText :
      (laws : FloatLaws fl) (f : TextFormats R) (x : R) → fl.le x x ≡ true → HasText (bar f x)
  unfolding bar
  bar-HasText laws f x h =
      let (low, high) = clamped-range laws f x h in
      let (n, e, le) = laws.part_of_bar (clamped f x) low high in
      rw e (meter-HasText n (226 ∷ 150 ∷ 136 ∷ []) (226 ∷ 150 ∷ 145 ∷ []) le)

  with_bar-HasText :
      (f : TextFormats R) (p : TrajectoryPoint R) (o : Option Str)
      → HasText o
      → HasText (with_bar f p o)
  unfolding with_bar
  with_bar-HasText f p o (s, e) = rw e (_, refl)

  point_rows-HasText :
      (laws : FloatLaws fl) (f : TextFormats R) (ps : List (TrajectoryPoint R))
      → AllOf IsNumber ps
      → HasText (point_rows f ps)
  unfolding point_rows
  point_rows-HasText laws f [] h = ([], refl)
  point_rows-HasText laws f (p ∷ ps) (h, hs) =
      both-HasText (with_bar f p (bar f p.ratio)) (point_rows f ps)
        (with_bar-HasText f p (bar f p.ratio) (bar-HasText laws f p.ratio h))
        (point_rows-HasText laws f ps hs)

  rows_text-HasText :
      (laws : FloatLaws fl) (f : TextFormats R) (points : List (TrajectoryPoint R))
      → AllOf IsNumber points
      → HasText (rows_text f (trajectory_rows points 8))
  unfolding rows_text
  rows_text-HasText laws f points h =
      let (rows, e, all) = trajectory_rows-AllOf IsNumber points h in
      rw e (point_rows-HasText laws f rows all)

  write_trajectory-HasText :
      (laws : FloatLaws fl) (f : TextFormats R) (r : Report R)
      → AllOf IsNumber r.trajectory
      → HasText (write_trajectory f r)
  unfolding write_trajectory both
  write_trajectory-HasText laws f r h = by_cases r.trajectory refl
    where
      by_cases :
          (points : List (TrajectoryPoint R))
          → r.trajectory ≡ points
          → HasText (write_trajectory f r)
      by_cases [] e = rw (write_trajectory, e) (_, refl)
      by_cases (p ∷ ps) e =
          let (rows, k) = rows_text-HasText laws f r.trajectory h in
          rw (write_trajectory, e, k) (_, refl)

  -- Every report has a text, whatever its ratios, but for NaN, which the division by a limit of zero
  -- alone would give: no index of a row is out of range, and clamping leaves no count of the bar's
  -- cells negative. Of float64 it needs the laws above: <= on numbers that are not NaN, and the whole
  -- part of eighteen times a fraction.
  pub text-HasText :
      (laws : FloatLaws fl) (f : TextFormats R) (r : Report R)
      → AllOf IsNumber r.trajectory
      → HasText (text f r)
  unfolding text
  text-HasText laws f r h =
      both-HasText _ _ (_, refl)
        (both-HasText (write_trajectory f r) _ (write_trajectory-HasText laws f r h) (_, refl))
