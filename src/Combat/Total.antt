-- ===== src/Combat/Total.antt =====
-- When a turn is resolved, and how far the fight moves in it.
use terminal_wrestling_leagu.Common.{
  ℕ, ◌≡◌, refl, ◌⊎◌, inl, inr, arith, true, false, List, [], ◌∷◌, some, All, Bool-cases,
}
use terminal_wrestling_leagu.Common.Text.{str_eq, str_eq_iff}
use terminal_wrestling_leagu.Combat.Types.{
  MatchState, TurnInput, TurnResult, RandomSource, CombatError, ok, err, match_finished,
}
use terminal_wrestling_leagu.Combat.Order.{canonicalize_inputs}
use terminal_wrestling_leagu.Combat.Turn.{
  Slot, slot1, slot2, Contexts, Progress, fighters_by_id, exchange, begin_turn, end_turn,
  turn_result, resolve_input, resolve_inputs, play_turn, resolve_turn,
}
use terminal_wrestling_leagu.Combat.Frame.{NextTurn, begin_turn-NextTurn, exchange-NextTurn}
use terminal_wrestling_leagu.Combat.Canonical.{CanonicalPair, canonicalize-CanonicalPair}

abbrev Named : MatchState → TurnInput → Type 0
Named s x = (x.player_id ≡ s.p1.player_id) ⊎ (x.player_id ≡ s.p2.player_id)

found :
    (s t : MatchState) (x : TurnInput)
    → NextTurn s t
    → Named s x
    → (slot : Slot) × (fighters_by_id t x.player_id ≡ some slot)
unfolding fighters_by_id
found s t x n named = elim (Bool-cases (str_eq t.p1.player_id x.player_id)) [
  | inl hit ↦ (slot1, rw hit refl)
  | inr miss ↦ (
    slot2,
    ground (
      arith,
      named,
      str_eq_iff t.p1.player_id x.player_id,
      str_eq_iff t.p2.player_id x.player_id,
    ),
  )
]

module _ {R : Type 0} (source : RandomSource R) where
  resolve_input-ok :
      (s : MatchState) (ctxs : Contexts) (prev_turn : ℕ) (x : TurnInput) (p : Progress R)
      → Named s x
      → NextTurn s p.next
      → (q : Progress R) × (resolve_input source ctxs prev_turn x p ≡ ok q) × NextTurn s q.next
  unfolding resolve_input
  resolve_input-ok s ctxs prev_turn x p named n = elim (Bool-cases p.next.outcome.finished) [
    | inl over ↦ (p, simp over, n)
    | inr playing ↦
        let (slot, e) = found s p.next x n named in
        (
          exchange source ctxs prev_turn slot x p,
          simp (playing, e),
          exchange-NextTurn source s ctxs prev_turn slot x p n,
        )
  ]

  resolve_inputs-ok :
      (s : MatchState) (ctxs : Contexts) (prev_turn : ℕ) (xs : List TurnInput) (p : Progress R)
      → All (Named s) xs
      → NextTurn s p.next
      → (q : Progress R) × (resolve_inputs source ctxs prev_turn xs p ≡ ok q)
  unfolding resolve_inputs
  resolve_inputs-ok s ctxs prev_turn [] p named n = (p, refl)
  resolve_inputs-ok s ctxs prev_turn (x ∷ xs) p named n =
      let (q, e, m) = resolve_input-ok s ctxs prev_turn x p named.0 n in
      let (r, e') = resolve_inputs-ok s ctxs prev_turn xs q named.1 m in (r, rw e e')

  canonical-Named :
      (s : MatchState) (xs : List TurnInput)
      → CanonicalPair s.p1.player_id s.p2.player_id xs
      → All (Named s) xs
  canonical-Named s xs c = rw c.both (ground (arith, c.named))

  -- A turn of a match that is not over is resolved whenever its inputs are accepted, whatever the
  -- random numbers are.
  pub resolve_turn_total :
      (s : MatchState) (inputs xs : List TurnInput) (rng : R)
      → s.outcome.finished ≡ false
      → canonicalize_inputs s inputs ≡ ok xs
      → (r : TurnResult × R) × (resolve_turn source s inputs rng ≡ ok r)
  unfolding resolve_turn play_turn
  resolve_turn_total s inputs xs rng go e =
      let named = canonical-Named s xs (canonicalize-CanonicalPair s inputs xs e) in
      let start = begin_turn s xs rng in
      let (p, e') =
        resolve_inputs-ok s start.0 s.turn xs start.1 named (begin_turn-NextTurn s xs rng) in
      (turn_result source (end_turn source start.0 p), simp (go, e, e'))

  -- And it is refused in every other case, with the error of the inputs or because the match is over.
  pub resolve_turn_refused :
      (s : MatchState) (inputs : List TurnInput) (rng : R)
      → ((s.outcome.finished ≡ true → resolve_turn source s inputs rng ≡ err match_finished))
        × ((e : CombatError)
            → s.outcome.finished ≡ false
            → canonicalize_inputs s inputs ≡ err e
            → resolve_turn source s inputs rng ≡ err e)
  unfolding resolve_turn
  resolve_turn_refused s inputs rng = (λ over. simp over, λ e go h. simp (go, h))
