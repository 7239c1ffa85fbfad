-- ===== src/Matchmaking/Exclusive.antt =====
-- Nobody plays two matches at the same time.
use terminal_wrestling_leagu.Common.{
  ℕ, ◌+◌, ◌≡◌, refl, ◌∙◌, arith, Bool, true, false, ◌||◌, Option, none, some, is_some, List, [],
  ◌∷◌, if◌then◌else◌, if_keeps, Bool-cases, inl, inr,
}
use terminal_wrestling_leagu.Common.Int.{ℤ}
use terminal_wrestling_leagu.Common.Text.{Str, str_eq, str_eq_iff, str_eq_comm, is_empty}
use terminal_wrestling_leagu.Lobby.{pop_next_pair, get_session}
use terminal_wrestling_leagu.Matchmaking.Floor.{
  Bout, Floor, mark, queue_wait_and_clear, clear_timed_out, release_players,
  requeue_after_pair_failure, requeue_if, start_pair, seat_pair, process_queue, players_of,
}

-- How often a player stands in a list, and how many seats of running matches the player has.
abbrev pub times : Str → List Str → ℕ
times id [] = 0
times id (x ∷ xs) = (if str_eq x id then 1 else 0) + times id xs

abbrev pub seats : Str → List Bout → ℕ
seats id [] = 0
seats id (bout ∷ bouts) = times id (players_of bout) + seats id bouts

abbrev pub one_if : Bool → ℕ
one_if b = if b then 1 else 0

-- A player who is marked has one seat, and nobody else has any.
pub record IsExclusive (floor : Floor) : Type 0 where
  pub exclusive : (id : Str) → seats id floor.bouts ≡ one_if (floor.in_match id)

-- The marks and the matches are the same in both.
record SameBouts (old new : Floor) : Type 0 where
  bouts : new.bouts ≡ old.bouts
  marks : (id : Str) → new.in_match id ≡ old.in_match id

same-IsExclusive : (old new : Floor) → SameBouts old new → IsExclusive old → IsExclusive new
same-IsExclusive old new s h = record {
  exclusive = λ id. rw (s.bouts, s.marks id) (h.exclusive id);
}

clear-SameBouts :
    (now : ℕ) (floor : Floor) (ids : List Str) → SameBouts floor (clear_timed_out now floor ids)
unfolding clear_timed_out queue_wait_and_clear
clear-SameBouts now floor [] = record { bouts = refl; marks = λ id. refl }
clear-SameBouts now floor (x ∷ ids) =
    let s = clear-SameBouts now (queue_wait_and_clear now floor x).1 ids in
    record { bouts = s.bouts; marks = s.marks }

requeue-SameBouts :
    (there : Bool) (now : ℕ) (floor : Floor) (id : Str)
    → SameBouts floor (requeue_if there now floor id)
unfolding requeue_if requeue_after_pair_failure
requeue-SameBouts true now floor id = record { bouts = refl; marks = λ id. refl }
requeue-SameBouts false now floor id = record { bouts = refl; marks = λ id. refl }

then_same : (a b c : Floor) → SameBouts a b → SameBouts b c → SameBouts a c
then_same a b c s t = record { bouts = t.bouts ∙ s.bouts; marks = λ id. t.marks id ∙ s.marks id }

-- A pair that is marked and released leaves the marks as they were.
freed-SameBouts :
    (floor : Floor) (a b : Str)
    → floor.in_match a ≡ false
    → floor.in_match b ≡ false
    → SameBouts floor (
        release_players
          (a ∷ b ∷ [])
          (record floor { in_match = mark (mark floor.in_match a true) b true }))
unfolding release_players
freed-SameBouts floor a b ha hb = record {
  bouts = refl;
  marks = λ id. ground (arith, ha, hb, str_eq_iff id a, str_eq_iff id b);
}

start_pair-IsExclusive :
    (now : ℕ) (floor : Floor) (a b : Str)
    → str_eq a b ≡ false
    → floor.in_match a ≡ false
    → floor.in_match b ≡ false
    → IsExclusive floor
    → IsExclusive (start_pair now floor a b)
unfolding start_pair
start_pair-IsExclusive now floor a b ne ha hb h =
    let back =
      same-IsExclusive floor _
        (then_same _ _ _ (freed-SameBouts floor a b ha hb) (
          then_same _ _ _ (requeue-SameBouts (is_some (get_session floor.lobby a)) now _ a)
            (requeue-SameBouts (is_some (get_session floor.lobby b)) now _ b)))
        h in
    if_keeps IsExclusive (is_some (get_session floor.lobby a)) _ _
      (if_keeps IsExclusive (is_some (get_session floor.lobby b)) _ _
        (record {
          exclusive = λ id. ground (
            arith,
            h.exclusive id,
            str_eq_comm a id,
            str_eq_comm b id,
            str_eq_iff id a,
            str_eq_iff id b,
            str_eq_iff a b,
            ha,
            hb,
          );
        })
        back)
      back

seat_pair-IsExclusive :
    (now : ℕ) (floor : Floor) (pair : Option (Str × Str))
    → IsExclusive floor
    → IsExclusive (seat_pair now floor pair)
unfolding seat_pair queue_wait_and_clear
seat_pair-IsExclusive now floor none h = h
seat_pair-IsExclusive now floor (some (a, b)) h =
    let waited = (queue_wait_and_clear now (queue_wait_and_clear now floor a).1 b).1 in
    let still : IsExclusive waited = record { exclusive = h.exclusive } in
    elim (Bool-cases (is_empty a || is_empty b || str_eq a b)) [
      | inl odd ↦ simp odd h
      | inr fine ↦
          let ne : str_eq a b ≡ false = ground arith in
          elim (Bool-cases (floor.in_match a)) [
            | inl busy_a ↦ simp (fine, busy_a) still
            | inr free_a ↦ elim (Bool-cases (floor.in_match b)) [
              | inl busy_b ↦ simp (fine, free_a, busy_b) still
              | inr free_b ↦
                  simp (fine, free_a, free_b)
                    (start_pair-IsExclusive now waited a b ne free_a free_b still)
            ]
          ]
    ]

-- Whatever pair the queue gives and whoever has waited too long, a round of pairing seats nobody twice.
pub process_queue-IsExclusive :
    (now : ℕ) (timeout : ℤ) (floor : Floor)
    → IsExclusive floor
    → IsExclusive (process_queue now timeout floor)
unfolding process_queue
process_queue-IsExclusive now timeout floor h =
    let popped = pop_next_pair now timeout floor.lobby in
    let base : Floor = record floor { lobby = popped.2 } in
    seat_pair-IsExclusive now (clear_timed_out now base popped.1) popped.0 (
      same-IsExclusive base _ (clear-SameBouts now base popped.1)
        (record { exclusive = h.exclusive }))
