-- ===== src/Npc/Interval.antt =====
-- A weighted choice takes the item in whose interval the roll falls.
use terminal_wrestling_leagu.Common.{
  ◌≡◌, refl, ap, arith, true, false, List, [], ◌∷◌, ◌++◌, Bool-cases, ltb→lt, lt→ltb, inl, inr,
}
use terminal_wrestling_leagu.Common.Int.{ℤ, pos, ◌+ℤ◌, ◌-ℤ◌, ◌≤ℤ◌, leb_ℤ, ltb_ℤ, +ℤ_parts, -ℤ_parts}
use terminal_wrestling_leagu.Combat.Types.{RandomSource}
use terminal_wrestling_leagu.Npc.Choice.{Weight, total_weight, pick, choose}

-- The items before the chosen one weigh no more than the roll, and with it they weigh more.
pub record ChosenBy {T : Type 0} (ws : List (Weight T)) (roll : ℤ) (item : T) : Type 0 where
  pub before : List (Weight T)
  pub chosen : Weight T
  pub after : List (Weight T)
  pub split : ws ≡ before ++ chosen ∷ after
  pub is_item : chosen.item ≡ item
  pub reached : total_weight before ≤ℤ roll
  pub not_passed : ltb_ℤ roll (total_weight before +ℤ chosen.weight) ≡ true

shift_lt : (r w t c : ℤ) → ltb_ℤ (r -ℤ w) (t +ℤ c) ≡ true → ltb_ℤ r ((w +ℤ t) +ℤ c) ≡ true
shift_lt r w t c h =
    lt→ltb _ _
      (omega (arith, ltb→lt _ _ h, -ℤ_parts r w, +ℤ_parts t c, +ℤ_parts w t, +ℤ_parts (w +ℤ t) c))

pick-ChosenBy :
    {T : Type 0} (last : T) (ws : List (Weight T)) (roll : ℤ)
    → pos 0 ≤ℤ roll
    → ltb_ℤ roll (total_weight ws) ≡ true
    → ChosenBy ws roll (pick last ws roll)
unfolding pick total_weight
pick-ChosenBy last [] roll lo hi = absurd (ground arith)
pick-ChosenBy last (w ∷ ws) roll lo hi = elim (Bool-cases (ltb_ℤ roll w.weight)) [
  | inl here ↦ rw here (record {
    before = [];
    chosen = w;
    after = ws;
    split = refl;
    is_item = refl;
    reached = lo;
    not_passed = ground (arith, +ℤ_parts (pos 0) w.weight);
  })
  | inr later ↦
      let rest =
        pick-ChosenBy w.item ws (roll -ℤ w.weight) (ground (arith, -ℤ_parts roll w.weight))
          (ground (arith, -ℤ_parts roll w.weight, +ℤ_parts w.weight (total_weight ws))) in
      rw later (record {
        before = w ∷ rest.before;
        chosen = rest.chosen;
        after = rest.after;
        split = ap (λ l. w ∷ l) rest.split;
        is_item = rest.is_item;
        reached = ground (
          arith,
          -ℤ_parts roll w.weight,
          +ℤ_parts w.weight (total_weight rest.before),
          rest.reached,
        );
        not_passed =
            shift_lt roll w.weight (total_weight rest.before) rest.chosen.weight rest.not_passed;
      })
]

-- What the choice asks of its source: below a positive bound, a number from 0 up to the bound.
abbrev pub InRange : {R : Type 0} → RandomSource R → Type 0
InRange {R = R} source =
    (n : ℤ) (rng : R)
    → ltb_ℤ (pos 0) n ≡ true
    → (pos 0 ≤ℤ (source.next_int n rng).0) × (ltb_ℤ (source.next_int n rng).0 n ≡ true)

-- From weights of a positive total and a source that keeps its bounds, the choice draws one number
-- below the total and takes the item whose share of the total that number falls into. The fallback
-- is never taken.
pub choose-ChosenBy :
    {T R : Type 0} (source : RandomSource R) (fallback : T) (ws : List (Weight T)) (rng : R)
    → InRange source
    → ltb_ℤ (pos 0) (total_weight ws) ≡ true
    → ChosenBy ws (source.next_int (total_weight ws) rng).0 (choose source fallback ws rng).0
      × ((choose source fallback ws rng).1 ≡ (source.next_int (total_weight ws) rng).1)
unfolding choose
choose-ChosenBy source fallback ws rng range h =
    let (lo, hi) = range (total_weight ws) rng h in
    let roll = (source.next_int (total_weight ws) rng).0 in
    let total : leb_ℤ (total_weight ws) (pos 0) ≡ false = ground arith in
    let low : ltb_ℤ roll (pos 0) ≡ false = ground arith in
    (simp (total, low) (pick-ChosenBy fallback ws roll lo hi), simp total)
