-- ===== src/Matchmaking/Running.antt =====
-- The calls of the service, one after the other.
use terminal_wrestling_leagu.Common.{
  ℕ, zero, suc, ◌+◌, ◌≤◌, ◌≡◌, refl, arith, Bool, false, ◌||◌, is_some, List, [], ◌∷◌,
  if◌then◌else◌, if_keeps, Bool-cases, inl, inr, subst,
}
use terminal_wrestling_leagu.Common.Int.{ℤ}
use terminal_wrestling_leagu.Common.Text.{Str, str_eq, str_eq_iff, str_eq_comm, is_empty}
use terminal_wrestling_leagu.Lobby.{
  Lobby, Session, register, unregister, Changed, changed, refused, join_queue, get_session,
}
use terminal_wrestling_leagu.Matchmaking.Floor.{
  Bout, Floor, new_floor, Entered, entered, Started, started, mark, note_joined, enter_with,
  enqueue, dequeue, start_npc_match, release_players, process_queue, without_bout, bout_players,
  end_bout,
}
use terminal_wrestling_leagu.Matchmaking.Exclusive.{
  times, seats, one_if, IsExclusive, process_queue-IsExclusive,
}

abbrev OnEntered : (Floor → Type 0) → Entered → Type 0
OnEntered P (entered floor) = P floor
OnEntered P _ = Unit

abbrev OnStarted : (Floor → Type 0) → Started → Type 0
OnStarted P (started floor) = P floor
OnStarted P _ = Unit

joined-IsExclusive :
    (now : ℕ) (floor : Floor) (id : Str) (c : Changed)
    → IsExclusive floor
    → OnEntered IsExclusive (enter_with now id floor c)
unfolding note_joined
joined-IsExclusive now floor id (changed lobby) h = record { exclusive = h.exclusive }
joined-IsExclusive now floor id (refused reason) h = tt

enqueue-IsExclusive :
    (now : ℕ) (floor : Floor) (id : Str)
    → IsExclusive floor
    → OnEntered IsExclusive (enqueue now floor id)
unfolding enqueue note_joined
enqueue-IsExclusive now floor id h =
    if_keeps (OnEntered IsExclusive) (floor.in_match id) _ _ tt
      (joined-IsExclusive now floor id (join_queue now floor.lobby id) h)

start_npc-IsExclusive :
    (floor : Floor) (id : Str)
    → IsExclusive floor
    → OnStarted IsExclusive (start_npc_match floor id)
unfolding start_npc_match
start_npc-IsExclusive floor id h = if_keeps (OnStarted IsExclusive) (is_empty id) _ _ tt (
    if_keeps (OnStarted IsExclusive) (is_some (get_session floor.lobby id)) _ _
      (elim (Bool-cases (floor.in_match id)) [
        | inl taken ↦ simp taken tt
        | inr free ↦ simp free (record {
          exclusive =
              λ key. ground (arith, h.exclusive key, str_eq_comm id key, str_eq_iff key id, free);
        })
      ])
      tt)

abbrev among : Str → List Str → Bool
among id [] = false
among id (x ∷ xs) = str_eq id x || among id xs

release_marks :
    (ids : List Str) (floor : Floor) (id : Str)
    → ((release_players ids floor).in_match id
        ≡ (if among id ids then false else floor.in_match id))
      × ((release_players ids floor).bouts ≡ floor.bouts)
unfolding release_players
release_marks [] floor id = (refl, refl)
release_marks (x ∷ ids) floor id =
    let r = release_marks ids (record floor { in_match = mark floor.in_match x false }) id in
    (ground (arith, r.0), r.1)

times-among : (id : Str) (ids : List Str) → one_if (among id ids) ≤ times id ids
times-among id [] = omega arith
times-among id (x ∷ ids) = ground (arith, str_eq_comm id x, times-among id ids)

among-none : (id : Str) (ids : List Str) → among id ids ≡ false → times id ids ≡ 0
among-none id [] h = refl
among-none id (x ∷ ids) h = ground (arith, str_eq_comm id x, among-none id ids)

seats-without :
    (id : Str) (i : ℕ) (bouts : List Bout)
    → seats id bouts ≡ times id (bout_players i bouts) + seats id (without_bout i bouts)
seats-without id i [] = refl
seats-without id zero (bout ∷ bouts) = refl
seats-without id (suc i) (bout ∷ bouts) = omega (arith, seats-without id i bouts)

end_bout-IsExclusive : (i : ℕ) (floor : Floor) → IsExclusive floor → IsExclusive (end_bout i floor)
unfolding end_bout
end_bout-IsExclusive i floor h = record {
  exclusive = λ id.
      let ids = bout_players i floor.bouts in
      let r = release_marks ids (record floor { bouts = without_bout i floor.bouts }) id in
      rw (r.0, r.1)
        (ground (
          arith,
          h.exclusive id,
          seats-without id i floor.bouts,
          times-among id ids,
          among-none id ids,
        ));
}

-- The calls that the service and the lobby serve, and the ends of matches.
pub data Step : Floor → Floor → Type 0 where
  enqueues :
      (now : ℕ) (floor next : Floor) (id : Str)
      → enqueue now floor id ≡ entered next
      → Step floor next
  dequeues : (now : ℕ) (floor : Floor) (id : Str) → Step floor (dequeue now floor id).1
  practices :
      (floor next : Floor) (id : Str) → start_npc_match floor id ≡ started next → Step floor next
  pairs : (now : ℕ) (timeout : ℤ) (floor : Floor) → Step floor (process_queue now timeout floor)
  ends : (i : ℕ) (floor : Floor) → Step floor (end_bout i floor)
  registers :
      (floor : Floor) (session : Session) (lobby : Lobby)
      → register floor.lobby session ≡ changed lobby
      → Step floor (record floor { lobby = lobby })
  unregisters :
      (floor : Floor) (id : Str) → Step floor (record floor { lobby = unregister floor.lobby id })

pub data Reach : Floor → Type 0 where
  opens : Reach new_floor
  moves : {floor next : Floor} → Reach floor → Step floor next → Reach next

Step-IsExclusive : {floor next : Floor} → Step floor next → IsExclusive floor → IsExclusive next
unfolding dequeue
Step-IsExclusive (enqueues now floor next id e) h =
    subst (OnEntered IsExclusive) e (enqueue-IsExclusive now floor id h)
Step-IsExclusive (dequeues now floor id) h = record { exclusive = h.exclusive }
Step-IsExclusive (practices floor next id e) h =
    subst (OnStarted IsExclusive) e (start_npc-IsExclusive floor id h)
Step-IsExclusive (pairs now timeout floor) h = process_queue-IsExclusive now timeout floor h
Step-IsExclusive (ends i floor) h = end_bout-IsExclusive i floor h
Step-IsExclusive (registers floor session lobby e) h = record { exclusive = h.exclusive }
Step-IsExclusive (unregisters floor id) h = record { exclusive = h.exclusive }

-- Whatever calls the service has served and whichever matches have ended, a player who is marked as
-- playing has exactly one seat in the matches that run, and any other player has none: nobody plays
-- two matches at a time, or stays marked after the match.
pub Reach-IsExclusive : {floor : Floor} → Reach floor → IsExclusive floor
unfolding new_floor
Reach-IsExclusive opens = record { exclusive = λ id. refl }
Reach-IsExclusive (moves r s) = Step-IsExclusive s (Reach-IsExclusive r)
