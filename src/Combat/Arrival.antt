-- ===== src/Combat/Arrival.antt =====
-- `CanonicalizeInputs` does not see who sent first, nor who sits in which seat.
use mathlib.Core.Path.{fun_ext}
use terminal_wrestling_leagu.Common.{
  ◌≡◌, refl, ap, arith, false, List, [], ◌∷◌, Bool-cases, inl, inr,
}
use terminal_wrestling_leagu.Common.Text.{
  Str, str_eq, str_eq_iff, str_eq_comm, str_lt_total, str_eq-false,
}
use terminal_wrestling_leagu.Combat.Types.{MatchState, TurnInput, ok, ◌>>=◌}
use terminal_wrestling_leagu.Combat.Order.{
  find_input, collect_inputs, all_known, input_for, sort_pair, order_inputs, canonicalize_inputs,
}
use terminal_wrestling_leagu.Combat.Rounds.{>>=-ok}

collect_swap :
    (x y : TurnInput) (seen : List TurnInput)
    → collect_inputs [] (x ∷ y ∷ []) ≡ ok seen
    → (seen ≡ y ∷ x ∷ [])
      × (collect_inputs [] (y ∷ x ∷ []) ≡ ok (x ∷ y ∷ []))
      × (str_eq x.player_id y.player_id ≡ false)
unfolding collect_inputs find_input
collect_swap x y seen e = ground (arith, str_eq_comm x.player_id y.player_id)

find_swap :
    (x y : TurnInput) (id : Str)
    → str_eq x.player_id y.player_id ≡ false
    → find_input id (x ∷ y ∷ []) ≡ find_input id (y ∷ x ∷ [])
unfolding find_input
find_swap x y id ne = ground (
  arith,
  str_eq_iff x.player_id id,
  str_eq_iff y.player_id id,
  str_eq_iff x.player_id y.player_id,
)

input_for_swap :
    (x y : TurnInput) (id : Str)
    → str_eq x.player_id y.player_id ≡ false
    → input_for (x ∷ y ∷ []) id ≡ input_for (y ∷ x ∷ []) id
unfolding input_for
input_for_swap x y id ne = rw (find_swap x y id ne, input_for) refl

order_swap :
    (x y : TurnInput) (id1 id2 : Str)
    → str_eq x.player_id y.player_id ≡ false
    → order_inputs id1 id2 (x ∷ y ∷ []) ≡ order_inputs id1 id2 (y ∷ x ∷ [])
unfolding order_inputs all_known sort_pair
order_swap x y id1 id2 ne = ground (arith, input_for_swap x y id1 ne, input_for_swap x y id2 ne)

-- The inputs of the two players may arrive in either order: what is accepted, and in which order it
-- is resolved, is the same.
pub canonicalize_arrival :
    (s : MatchState) (x y : TurnInput) (xs : List TurnInput)
    → canonicalize_inputs s (x ∷ y ∷ []) ≡ ok xs
    → canonicalize_inputs s (y ∷ x ∷ []) ≡ ok xs
unfolding canonicalize_inputs
canonicalize_arrival s x y xs e =
    let (seen, c, o) = >>=-ok (collect_inputs [] (x ∷ y ∷ [])) _ e in
    let (shape, c', ne) = collect_swap x y seen c in
    rw (c', order_swap x y s.p1.player_id s.p2.player_id ne) (rw (← shape) o)

all_known_comm :
    (id1 id2 : Str) (seen : List TurnInput) → all_known id1 id2 seen ≡ all_known id2 id1 seen
unfolding all_known
all_known_comm id1 id2 [] = refl
all_known_comm id1 id2 (x ∷ seen) = ground (arith, all_known_comm id1 id2 seen)

sort_pair_comm : (id1 id2 : Str) → str_eq id1 id2 ≡ false → sort_pair id1 id2 ≡ sort_pair id2 id1
unfolding sort_pair
sort_pair_comm id1 id2 ne = ground (arith, str_lt_total id1 id2 (str_eq-false id1 id2 ne))

order_inputs_comm :
    (id1 id2 : Str) (seen : List TurnInput) → order_inputs id1 id2 seen ≡ order_inputs id2 id1 seen
unfolding order_inputs
order_inputs_comm id1 id2 seen = elim (Bool-cases (str_eq id1 id2)) [
  | inl same ↦ ground (arith, str_eq_comm id1 id2)
  | inr ne ↦
      ground (arith, str_eq_comm id1 id2, all_known_comm id1 id2 seen, sort_pair_comm id1 id2 ne)
]

-- The two fighters may sit in either seat of the match: any inputs are accepted or refused alike,
-- with the same error, and resolved in the same order.
pub canonicalize_seats :
    (s t : MatchState) (inputs : List TurnInput)
    → t.p1.player_id ≡ s.p2.player_id
    → t.p2.player_id ≡ s.p1.player_id
    → canonicalize_inputs t inputs ≡ canonicalize_inputs s inputs
unfolding canonicalize_inputs
canonicalize_seats s t inputs e1 e2 =
    rw (e1, e2)
      (ap (λ f. collect_inputs [] inputs >>= f)
        (fun_ext (order_inputs_comm s.p2.player_id s.p1.player_id)))
