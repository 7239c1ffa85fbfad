-- ===== src/Ranking/Limits.antt =====
-- internal/ranking/glicko2.go: the limits of the ratings that the package gives out.
use terminal_wrestling_leagu.Common.{
  ℕ, ◌≡◌, refl, false, if◌then◌else◌, if_keeps, Bool-cases, inl, inr, List, [], ◌∷◌,
}
use terminal_wrestling_leagu.Common.Answer.{Yields, >>=-Yields}
use terminal_wrestling_leagu.Common.Float64.{Float64, float, IsRounded}
use terminal_wrestling_leagu.Ranking.{
  Rating, OpponentResult, Glicko2Config, default_rating, normalize_rating, apply_season_soft_reset,
  is_zero_rating,
}
use terminal_wrestling_leagu.Ranking.Solver.{update_rating, rate, rate_opponents, rested}

-- A rating within the limits of `normalizeRating`; a deviation that is no number passes its tests.
abbrev pub IsLimited : {F : Type 0} ⦃fl : Float64 F⦄ → Rating F → Type 0
IsLimited ⦃fl⦄ x =
    (fl.lt x.rd (float 30) ≡ false)
    × (fl.lt (float 350) x.rd ≡ false)
    × (fl.lt x.sigma (fl.literal 1 4) ≡ false)

module _ {F : Type 0} ⦃fl : Float64 F⦄ (rounded : IsRounded F) where
  floored : (x low : F) → fl.lt low low ≡ false → fl.lt (if fl.lt x low then low else x) low ≡ false
  floored x low h = elim (Bool-cases (fl.lt x low)) [ inl e ↦ simp e h | inr e ↦ simp e refl ]

  -- What is not below 30 stays so under the cap of 350.
  capped :
      (x : F)
      → fl.lt x (float 30) ≡ false
      → (fl.lt (if fl.lt (float 350) x then float 350 else x) (float 30) ≡ false)
        × (fl.lt (float 350) (if fl.lt (float 350) x then float 350 else x) ≡ false)
  capped x h = elim (Bool-cases (fl.lt (float 350) x)) [
    | inl e ↦ simp e (rounded.literal_mono 350 0 30 0 refl, rounded.literal_mono 350 0 350 0 refl)
    | inr e ↦ simp e (h, refl)
  ]

  pub normalize_rating-IsLimited : (x : Rating F) → IsLimited (normalize_rating x)
  unfolding normalize_rating
  normalize_rating-IsLimited x =
      let (low, high) =
        capped (if fl.lt x.rd (float 30) then float 30 else x.rd)
          (floored x.rd (float 30) (rounded.literal_mono 30 0 30 0 refl)) in
      (low, high, floored x.sigma (fl.literal 1 4) (rounded.literal_mono 1 4 1 4 refl))

  pub default_rating-IsLimited : IsLimited {F = F} default_rating
  default_rating-IsLimited = (
    rounded.literal_mono 350 0 30 0 refl,
    rounded.literal_mono 350 0 350 0 refl,
    rounded.literal_mono 6 2 1 4 refl,
  )

  pub apply_season_soft_reset-IsLimited : (x : Rating F) → IsLimited (apply_season_soft_reset x)
  unfolding apply_season_soft_reset
  apply_season_soft_reset-IsLimited x =
      if_keeps (IsLimited {F = F}) (is_zero_rating x) _ _ default_rating-IsLimited
        (normalize_rating-IsLimited _)

module _ {F : Type 0} ⦃fl : Float64 F⦄ (rounded : IsRounded F) where
  rate-IsLimited :
      (fuel : ℕ) (cfg : Glicko2Config F) (current : Rating F) (sum_inv_v sum_delta : F)
      → Yields (IsLimited {F = F}) (rate fuel cfg current sum_inv_v sum_delta)
  unfolding rate
  rate-IsLimited fuel cfg current sum_inv_v sum_delta =
      if_keeps (Yields (IsLimited {F = F})) (fl.le sum_inv_v (float 0)) _ _ tt
        (>>=-Yields (IsLimited {F = F}) _ _ λ sigma_prime. normalize_rating-IsLimited rounded _)

  rate_opponents-IsLimited :
      (fuel : ℕ) (cfg : Glicko2Config F) (current : Rating F) (opps : List (OpponentResult F))
      → Yields (IsLimited {F = F}) (rate_opponents fuel cfg current opps)
  unfolding rate_opponents rested
  rate_opponents-IsLimited fuel cfg current [] = normalize_rating-IsLimited rounded _
  rate_opponents-IsLimited fuel cfg current (opp ∷ opps) = rate-IsLimited fuel cfg current _ _

  -- A rating that `Update` gives has a deviation that is not below 30 and not above 350 and a
  -- volatility that is not below 0.0001, if literals are rounded in order.
  pub update_rating-IsLimited :
      (fuel : ℕ) (cfg : Glicko2Config F) (given : Rating F) (opponents : List (OpponentResult F))
      → Yields (IsLimited {F = F}) (update_rating fuel cfg given opponents)
  unfolding update_rating
  update_rating-IsLimited fuel cfg given opponents = >>=-Yields (IsLimited {F = F}) _ _ λ _.
      >>=-Yields (IsLimited {F = F}) _ _
        λ _. >>=-Yields (IsLimited {F = F}) _ _ λ _. rate_opponents-IsLimited fuel cfg _ opponents
