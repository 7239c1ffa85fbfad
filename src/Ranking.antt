-- ===== src/Ranking.antt =====
-- internal/ranking: types.go and glicko2.go, over the `float64` operations of an instance. A
-- pointer to a rating is a value, and the loop that solves for the new volatility has fuel.
pub mod Solver
pub mod Limits
use terminal_wrestling_leagu.Common.{Bool, true, false, ◌&&◌, ◌||◌, List, [], ◌∷◌, if◌then◌else◌, ℕ}
use terminal_wrestling_leagu.Common.Answer.{Answer, failed, done, ◌>>=◌, refuse_if}
use terminal_wrestling_leagu.Common.Float64.{Float64, ◌+f◌, ◌-f◌, ◌*f◌, ◌/f◌, ◌<f◌, ◌≤f◌, float}

pub record Rating (F : Type 0) : Type 0 where
  pub r : F
  pub rd : F
  pub sigma : F

pub record OpponentResult (F : Type 0) : Type 0 where
  pub opponent : Rating F
  pub score : F

pub record Glicko2Config (F : Type 0) : Type 0 where
  pub tau : F
  pub epsilon : F
  pub default_rating : Rating F

-- `unfinished` is no error of the code: the fuel of the solver's loop was too little.
pub data RankingError : Type 0 where
  tau_not_positive epsilon_not_positive : RankingError
  rating_not_finite rd_not_positive sigma_not_positive : RankingError
  bad_opponent : RankingError → RankingError
  invalid_score invalid_variance : RankingError
  convergence_failed sigma_nan invalid_sigma unfinished : RankingError

-- The interface `Service`.
pub record Service (F : Type 0) : Type 0 where
  pub update : Rating F → List (OpponentResult F) → Answer RankingError (Rating F)

module _ {F : Type 0} ⦃fl : Float64 F⦄ where
  abbrev pub score_loss : F
  score_loss = float 0

  abbrev pub score_draw : F
  score_draw = fl.literal 5 1

  abbrev pub score_win : F
  score_win = float 1

  unfoldable pub is_valid : F → Bool
  is_valid s = fl.eq s score_loss || fl.eq s score_draw || fl.eq s score_win

  abbrev pub glicko_scale : F
  glicko_scale = fl.literal 1737178 4

  abbrev pub default_rating : Rating F
  default_rating = record { r = float 1500; rd = float 350; sigma = fl.literal 6 2 }

  abbrev pub default_config : Glicko2Config F
  default_config = record {
    tau = fl.literal 5 1;
    epsilon = fl.literal 1 6;
    default_rating = default_rating;
  }

  -- `rating == (Rating{})`.
  unfoldable pub is_zero_rating : Rating F → Bool
  is_zero_rating x = fl.eq x.r (float 0) && fl.eq x.rd (float 0) && fl.eq x.sigma (float 0)

  -- `NewGlicko2Service`: what the configuration leaves out.
  unfoldable pub completed_config : Glicko2Config F → Glicko2Config F
  completed_config cfg = record {
    tau = if fl.eq cfg.tau (float 0) then default_config.tau else cfg.tau;
    epsilon = if fl.eq cfg.epsilon (float 0) then default_config.epsilon else cfg.epsilon;
    default_rating =
        if is_zero_rating cfg.default_rating
        then default_config.default_rating
        else cfg.default_rating;
  }

  unfoldable pub not_positive : F → Bool
  not_positive x = x ≤f float 0 || fl.is_nan x || fl.is_inf x

  unfoldable pub validate_rating : Rating F → Answer RankingError Unit
  validate_rating x =
      if fl.is_nan x.r || fl.is_inf x.r
      then failed rating_not_finite
      else if not_positive x.rd
      then failed rd_not_positive
      else if not_positive x.sigma
      then failed sigma_not_positive
      else done tt

  unfoldable pub validate_config : Glicko2Config F → Answer RankingError Unit
  validate_config cfg =
      if cfg.tau ≤f float 0
      then failed tau_not_positive
      else if cfg.epsilon ≤f float 0
      then failed epsilon_not_positive
      else validate_rating cfg.default_rating

  -- The tests on one opponent.
  unfoldable pub validate_opponent : OpponentResult F → Answer RankingError Unit
  validate_opponent opp = elim (validate_rating opp.opponent) [
    | failed reason ↦ failed (bad_opponent reason)
    | done _ ↦ if is_valid opp.score then done tt else failed invalid_score
  ]

  unfoldable pub validate_opponents : List (OpponentResult F) → Answer RankingError Unit
  validate_opponents [] = done tt
  validate_opponents (opp ∷ opps) = validate_opponent opp >>= λ _. validate_opponents opps

  unfoldable pub normalize_rating : Rating F → Rating F
  normalize_rating x =
      let low = if x.rd <f float 30 then float 30 else x.rd in
      record {
        r = x.r;
        rd = if float 350 <f low then float 350 else low;
        sigma = if x.sigma <f fl.literal 1 4 then fl.literal 1 4 else x.sigma;
      }

  unfoldable pub to_mu : F → F
  to_mu x = (x -f float 1500) /f glicko_scale

  unfoldable pub from_mu : F → F
  from_mu mu = mu *f glicko_scale +f float 1500

  unfoldable pub to_phi : F → F
  to_phi rd = rd /f glicko_scale

  unfoldable pub from_phi : F → F
  from_phi phi = phi *f glicko_scale

  unfoldable pub g : F → F
  g phi = float 1 /f fl.sqrt (float 1 +f float 3 *f phi *f phi /f (fl.pi *f fl.pi))

  -- The function `E`.
  unfoldable pub expected : F → F → F → F
  expected mu mu_j phi_j = float 1 /f (float 1 +f fl.exp (fl.negated (g phi_j) *f (mu -f mu_j)))

  -- The two sums over the opponents.
  unfoldable pub accumulate : F → List (OpponentResult F) → F → F → F × F
  accumulate mu [] sum_inv_v sum_delta = (sum_inv_v, sum_delta)
  accumulate mu (opp ∷ opps) sum_inv_v sum_delta =
      let g_j = g (to_phi opp.opponent.rd) in
      let e = expected mu (to_mu opp.opponent.r) (to_phi opp.opponent.rd) in
      accumulate mu opps (sum_inv_v +f g_j *f g_j *f e *f (float 1 -f e))
        (sum_delta +f g_j *f (opp.score -f e))

  unfoldable pub apply_season_soft_reset : Rating F → Rating F
  apply_season_soft_reset previous =
      if is_zero_rating previous
      then default_rating
      else normalize_rating (record {
        r = fl.literal 75 2 *f previous.r +f fl.literal 25 2 *f float 1500;
        rd = fl.least (float 350) (previous.rd +f float 30);
        sigma = previous.sigma;
      })
