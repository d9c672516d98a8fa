-- ===== src/FrameStats/Values.antt =====
-- The sum and the extremes of some values, as a running statistic keeps them and a line prints them.
use imx8mp_pipe_line_setup.Prelude.{
  ◌≡◌, refl, sym, ap, ◌∙◌, inl, inr, List, [], ◌∷◌, ◌++◌, Bool-cases, ◌⊎◌, false, All,
  if◌then◌else◌,
}
use imx8mp_pipe_line_setup.Prelude.Int.{pos}
use imx8mp_pipe_line_setup.Double.{Double, IsOrdered}
use imx8mp_pipe_line_setup.FrameStats.{RunningStat, Line, stat_reset, stat_add, stat_print}

module _ {W : Type 0} ⦃d : Double W⦄ where
  -- One of the values.
  abbrev pub OneOf : W → List W → Type 0
  OneOf w [] = ⊥
  OneOf w (v ∷ vs) = (w ≡ v) ⊎ OneOf w vs

  -- One of the values, and no other is below it, or above it.
  abbrev pub IsMinimum : W → List W → Type 0
  IsMinimum w vs = OneOf w vs × All (λ v. d.lt v w ≡ false) vs

  abbrev pub IsMaximum : W → List W → Type 0
  IsMaximum w vs = OneOf w vs × All (λ v. d.lt w v ≡ false) vs

  -- The values added up in their order.
  abbrev pub sum_from : W → List W → W
  sum_from acc [] = acc
  sum_from acc (v ∷ vs) = sum_from (d.add acc v) vs

  -- The sum and the extremes of some values; the extremes of no value are those of the reset.
  pub record IsStat (values : List W) (s : RunningStat W) : Type 0 where
    pub sum_is : s.sum ≡ sum_from (d.decimal 0 0) values
    pub least_is : IsMinimum s.least (d.dbl_max ∷ values)
    pub greatest_is : IsMaximum s.greatest (d.neg d.dbl_max ∷ values)

  -- The three numbers of a line about a hundred values, in milliseconds.
  pub record IsLine (values : List W) (line : Line W) : Type 0 where
    pub least : W
    pub least_is : IsMinimum least (d.dbl_max ∷ values)
    pub min_is : line.min_ms ≡ d.mul least (d.decimal 1000 0)
    pub avg_is :
        line.avg_ms
        ≡ d.mul (d.div (sum_from (d.decimal 0 0) values) (d.of_int (pos 100))) (d.decimal 1000 0)
    pub greatest : W
    pub greatest_is : IsMaximum greatest (d.neg d.dbl_max ∷ values)
    pub max_is : line.max_ms ≡ d.mul greatest (d.decimal 1000 0)

  sum_from-concat :
      (acc value : W) (values : List W)
      → sum_from acc (values ++ (value ∷ [])) ≡ d.add (sum_from acc values) value
  sum_from-concat acc value [] = refl
  sum_from-concat acc value (v ∷ values) = sum_from-concat (d.add acc v) value values

  OneOf-concat : (w value : W) (vs : List W) → OneOf w vs → OneOf w (vs ++ (value ∷ []))
  OneOf-concat w value [] o = absurd o
  OneOf-concat w value (v ∷ vs) (inl e) = inl e
  OneOf-concat w value (v ∷ vs) (inr o) = inr (OneOf-concat w value vs o)

  OneOf-last : (value : W) (vs : List W) → OneOf value (vs ++ (value ∷ []))
  OneOf-last value [] = inl refl
  OneOf-last value (v ∷ vs) = inr (OneOf-last value vs)

  All-concat :
      (P : W → Type 0) (value : W) (vs : List W) → All P vs → P value → All P (vs ++ (value ∷ []))
  All-concat P value [] all here = (here, tt)
  All-concat P value (v ∷ vs) all here = (all.0, All-concat P value vs all.1 here)

  All-map : (P Q : W → Type 0) (vs : List W) → ((v : W) → P v → Q v) → All P vs → All Q vs
  All-map P Q [] f all = tt
  All-map P Q (v ∷ vs) f all = (f v all.0, All-map P Q vs f all.1)

module _ {W : Type 0} ⦃d : Double W⦄ (laws : IsOrdered W) where
  open laws use {lt_asymm, number_of_lt, le_trans}

  -- Nothing is below itself.
  lt_irrefl : (w : W) → d.lt w w ≡ false
  lt_irrefl w = elim (Bool-cases (d.lt w w)) [
    | inl less ↦ lt_asymm w w less
    | inr not_less ↦ not_less
  ]

  IsMinimum-concat :
      (least value : W) (vs : List W)
      → IsMinimum least vs
      → IsMinimum (if d.lt value least then value else least) (vs ++ (value ∷ []))
  IsMinimum-concat least value vs (one, all) = elim (Bool-cases (d.lt value least)) [
    | inl less ↦
        let below : (v : W) → d.lt v least ≡ false → d.lt v value ≡ false = λ v h.
          le_trans value least v ((number_of_lt value least less).1) (lt_asymm value least less)
            h in
        rw less (
          OneOf-last value vs,
          All-concat (λ v. d.lt v value ≡ false) value vs
              (All-map (λ v. d.lt v least ≡ false) (λ v. d.lt v value ≡ false) vs below all)
              (lt_irrefl value),
        )
    | inr not_less ↦ rw not_less (
      OneOf-concat least value vs one,
      All-concat (λ v. d.lt v least ≡ false) value vs all not_less,
    )
  ]

  IsMaximum-concat :
      (greatest value : W) (vs : List W)
      → IsMaximum greatest vs
      → IsMaximum (if d.lt greatest value then value else greatest) (vs ++ (value ∷ []))
  IsMaximum-concat greatest value vs (one, all) = elim (Bool-cases (d.lt greatest value)) [
    | inl less ↦
        let above : (v : W) → d.lt greatest v ≡ false → d.lt value v ≡ false = λ v h.
          le_trans v greatest value ((number_of_lt greatest value less).0) h
            (lt_asymm greatest value less) in
        rw less (
          OneOf-last value vs,
          All-concat (λ v. d.lt value v ≡ false) value vs
              (All-map (λ v. d.lt greatest v ≡ false) (λ v. d.lt value v ≡ false) vs above all)
              (lt_irrefl value),
        )
    | inr not_less ↦ rw not_less (
      OneOf-concat greatest value vs one,
      All-concat (λ v. d.lt greatest v ≡ false) value vs all not_less,
    )
  ]

  pub stat_add-IsStat :
      (values : List W) (value : W) (s : RunningStat W)
      → IsStat values s
      → IsStat (values ++ (value ∷ [])) (stat_add s value)
  unfolding stat_add
  stat_add-IsStat values value s i = record {
    sum_is = ap (λ t. d.add t value) i.sum_is ∙ sym (sum_from-concat (d.decimal 0 0) value values);
    least_is = IsMinimum-concat s.least value (d.dbl_max ∷ values) i.least_is;
    greatest_is = IsMaximum-concat s.greatest value (d.neg d.dbl_max ∷ values) i.greatest_is;
  }

  pub stat_reset-IsStat : (s : RunningStat W) → IsStat [] (stat_reset s)
  unfolding stat_reset
  stat_reset-IsStat s = record {
    sum_is = refl;
    least_is = (inl refl, (lt_irrefl d.dbl_max, tt));
    greatest_is = (inl refl, (lt_irrefl (d.neg d.dbl_max), tt));
  }

  pub stat_print-IsLine :
      (values : List W) (s : RunningStat W) → IsStat values s → IsLine values (stat_print s 100)
  unfolding stat_print
  stat_print-IsLine values s i = record {
    least = s.least;
    least_is = i.least_is;
    min_is = refl;
    avg_is = ap (λ t. d.mul (d.div t (d.of_int (pos 100))) (d.decimal 1000 0)) i.sum_is;
    greatest = s.greatest;
    greatest_is = i.greatest_is;
    max_is = refl;
  }
