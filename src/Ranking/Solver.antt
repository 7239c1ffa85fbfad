-- ===== src/Ranking/Solver.antt =====
-- internal/ranking/glicko2.go: `solveSigmaPrime` and `Update`. `fuel` bounds the turns of the loop
-- that narrows the interval, which the code does not bound.
use terminal_wrestling_leagu.Common.{ℕ, zero, suc, ◌+◌, ◌||◌, List, [], ◌∷◌, if◌then◌else◌}
use terminal_wrestling_leagu.Common.Answer.{Answer, failed, done, ◌>>=◌}
use terminal_wrestling_leagu.Common.Float64.{Float64, ◌+f◌, ◌-f◌, ◌*f◌, ◌/f◌, ◌<f◌, ◌≤f◌, float}
use terminal_wrestling_leagu.Ranking.{
  Rating, OpponentResult, Glicko2Config, RankingError, convergence_failed, sigma_nan, invalid_sigma,
  invalid_variance, unfinished, Service, is_zero_rating, completed_config, validate_config,
  validate_rating, validate_opponents, normalize_rating, to_mu, from_mu, to_phi, from_phi,
  accumulate,
}

module _ {F : Type 0} ⦃fl : Float64 F⦄ where
  -- The function `f` of the volatility.
  unfoldable pub sigma_equation : (phi delta v tau a x : F) → F
  sigma_equation phi delta v tau a x =
      let ex = fl.exp x in
      let num = ex *f (delta *f delta -f phi *f phi -f v -f ex) in
      let den = float 2 *f fl.power (phi *f phi +f v +f ex) (float 2) in
      num /f den -f (x -f a) /f (tau *f tau)

  -- The search for the other end of the interval, from the k-th try on with `n` tries left.
  unfoldable pub search_bound : (f : F → F) → F → F → ℕ → ℕ → Answer RankingError F
  search_bound f a tau zero k = failed convergence_failed
  search_bound f a tau (suc n) k =
      let b = a -f float k *f tau in
      let next = search_bound f a tau n (k + 1) in if float 0 ≤f f b then done b else next

  -- The loop that narrows the interval; the result is the end `A`.
  unfoldable pub narrow : (f : F → F) → F → ℕ → F → F → F → F → Answer RankingError F
  narrow f epsilon zero a b f_a f_b =
      if epsilon <f fl.abs (b -f a) then failed unfinished else done a
  narrow f epsilon (suc fuel) a b f_a f_b =
      let c = a +f (a -f b) *f f_a /f (f_b -f f_a) in
      let f_c = f c in
      let shrunk = narrow f epsilon fuel b c f_b f_c in
      let halved = narrow f epsilon fuel a c (f_a /f float 2) f_c in
      if epsilon <f fl.abs (b -f a)
      then if f_c *f f_b ≤f float 0 then shrunk else halved
      else done a

  unfoldable pub sigma_result : F → Answer RankingError F
  sigma_result a =
      let sigma = fl.exp (a /f float 2) in
      if sigma ≤f float 0 || fl.is_nan sigma || fl.is_inf sigma
      then failed invalid_sigma
      else done sigma

  unfoldable pub solve_sigma_prime : ℕ → (phi sigma delta v tau epsilon : F) → Answer RankingError F
  solve_sigma_prime fuel phi sigma delta v tau epsilon =
      let a = fl.log (sigma *f sigma) in
      let f = sigma_equation phi delta v tau a in
      let bound : Answer RankingError F =
        if phi *f phi +f v <f delta *f delta
        then done (fl.log (delta *f delta -f phi *f phi -f v))
        else search_bound f a tau 1000 1 in
      bound >>= λ b.
      if fl.is_nan (f a) || fl.is_nan (f b)
      then failed sigma_nan
      else narrow f epsilon fuel a b (f a) (f b) >>= sigma_result

  -- The new rating from the two sums.
  unfoldable pub rate : ℕ → Glicko2Config F → Rating F → F → F → Answer RankingError (Rating F)
  rate fuel cfg current sum_inv_v sum_delta =
      let phi = to_phi current.rd in
      let v = float 1 /f sum_inv_v in
      if sum_inv_v ≤f float 0
      then failed invalid_variance
      else solve_sigma_prime fuel phi current.sigma (v *f sum_delta) v cfg.tau cfg.epsilon
        >>= λ sigma_prime.
            let phi_star = fl.sqrt (phi *f phi +f sigma_prime *f sigma_prime) in
            let phi_prime =
              float 1 /f fl.sqrt (float 1 /f (phi_star *f phi_star) +f float 1 /f v) in
            done (
              normalize_rating (record {
                r = from_mu (to_mu current.r +f phi_prime *f phi_prime *f sum_delta);
                rd = from_phi phi_prime;
                sigma = sigma_prime;
              }))

  -- A period without a match.
  unfoldable pub rested : Rating F → Rating F
  rested current =
      let phi = to_phi current.rd in
      normalize_rating (record {
        r = from_mu (to_mu current.r);
        rd = from_phi (fl.sqrt (phi *f phi +f current.sigma *f current.sigma));
        sigma = current.sigma;
      })

  unfoldable pub rate_opponents :
      ℕ → Glicko2Config F → Rating F → List (OpponentResult F) → Answer RankingError (Rating F)
  rate_opponents fuel cfg current [] = done (rested current)
  rate_opponents fuel cfg current (opp ∷ opps) =
      let (sum_inv_v, sum_delta) = accumulate (to_mu current.r) (opp ∷ opps) (float 0) (float 0) in
      rate fuel cfg current sum_inv_v sum_delta

  unfoldable pub update_rating :
      ℕ → Glicko2Config F → Rating F → List (OpponentResult F) → Answer RankingError (Rating F)
  update_rating fuel cfg given opponents =
      let current = if is_zero_rating given then cfg.default_rating else given in
      validate_config cfg >>= λ _. validate_rating current >>= λ _.
      validate_opponents opponents >>= λ _. rate_opponents fuel cfg current opponents

  -- `NewGlicko2Service`.
  abbrev pub new_glicko2_service : ℕ → Glicko2Config F → Service F
  new_glicko2_service fuel cfg = record { update = update_rating fuel (completed_config cfg) }
