-- ===== src/Credential/Bars.antt =====
-- The bars of features in frontend/src/components/attestation/ModelReceipts.tsx. The numbers of
-- JavaScript and what it prints of them are a parameter.
use zkredit.Prelude.{
  ℕ, ◌<>◌, String, Bool, Option, none, some, List, [], ◌∷◌, map, if◌then◌else◌, All,
}
use zkredit.Credential.Receipts.{feats, pretty}

pub record Floats : Type 1 where
  pub Number : Type 0
  -- 1e-6
  pub micro : Number
  -- `c >= 0`
  pub is_positive : Number → Bool
  -- `Math.abs`, and `Math.max` of two
  pub abs : Number → Number
  pub max : Number → Number → Number
  -- `(a / b) * 100`, as a template prints it
  pub percent : Number → Number → String
  -- `toFixed(2)`
  pub to_fixed : Number → String

-- What IEEE 754 promises of numbers without NaN.
pub record IsOrdered (floats : Floats) : Type 1 where
  pub Le : floats.Number → floats.Number → Type 0
  pub le_refl : (a : floats.Number) → Le a a
  pub le_trans : (a b c : floats.Number) → Le a b → Le b c → Le a c
  pub le_max_left : (a b : floats.Number) → Le a (floats.max a b)
  pub le_max_right : (a b : floats.Number) → Le b (floats.max a b)

-- The fields of `TopFeature` that are shown.
pub record TopFeature (floats : Floats) : Type 0 where
  pub name : List ℕ
  pub contribution : floats.Number

pub record Bar : Type 0 where
  pub label : List ℕ
  pub amount : String
  pub width : String
  -- the colors of a contribution that is not negative
  pub is_pos : Bool

module _ (floats : Floats) where
  -- `Math.max(1e-6, ...)`
  abbrev max_from : floats.Number → List (TopFeature floats) → floats.Number
  max_from m [] = m
  max_from m (f ∷ more) = max_from (floats.max m (floats.abs f.contribution)) more

  unfoldable pub max_abs : List (TopFeature floats) → floats.Number
  max_abs shown = max_from floats.micro shown

  unfoldable pub bar : floats.Number → TopFeature floats → Bar
  bar most f =
      let pos = floats.is_positive f.contribution in
      record {
        label = pretty f.name;
        amount = (if pos then "+" else "−") <> floats.to_fixed (floats.abs f.contribution);
        width = floats.percent (floats.abs f.contribution) most <> "%";
        is_pos = pos;
      }

  -- A line where there are no features.
  unfoldable pub feature_bars : Option (List (TopFeature floats)) → Option String × List Bar
  feature_bars top_features = shown (feats top_features)
    where
      shown : List (TopFeature floats) → Option String × List Bar
      shown [] = (some "Feature contributions were not returned with this attestation", [])
      shown (f ∷ more) = (none, map (bar (max_abs (f ∷ more))) (f ∷ more))

  module _ (order : IsOrdered floats) where
    le_max_from :
        (m : floats.Number) (shown : List (TopFeature floats)) → order.Le m (max_from m shown)
    le_max_from m [] = order.le_refl m
    le_max_from m (f ∷ more) =
        let longer = floats.max m (floats.abs f.contribution) in
        order.le_trans m longer (max_from longer more)
          (order.le_max_left m (floats.abs f.contribution)) (le_max_from longer more)

    all_le_max_from :
        (m : floats.Number) (shown : List (TopFeature floats))
        → All (λ f. order.Le (floats.abs f.contribution) (max_from m shown)) shown
    all_le_max_from m [] = tt
    all_le_max_from m (f ∷ more) =
        let longer = floats.max m (floats.abs f.contribution) in
        (
          order.le_trans (floats.abs f.contribution) longer (max_from longer more)
              (order.le_max_right m (floats.abs f.contribution)) (le_max_from longer more),
          all_le_max_from longer more,
        )

    -- No bar is wider than the whole, and the number that it is divided by is at least 1e-6.
    max_abs-Bounds :
        (shown : List (TopFeature floats))
        → order.Le floats.micro (max_abs shown)
          × All (λ f. order.Le (floats.abs f.contribution) (max_abs shown)) shown
    unfolding max_abs
    max_abs-Bounds shown = (le_max_from floats.micro shown, all_le_max_from floats.micro shown)
