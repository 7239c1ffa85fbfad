-- ===== src/Tests/Lobby.antt =====
-- The lobby with two players, one of them queued.
use terminal_wrestling_leagu.Common.{none, some, List, [], ◌∷◌, arith, ◌≡◌, refl, ◌+◌, true}
use terminal_wrestling_leagu.Common.Int.{pos}
use terminal_wrestling_leagu.Common.Text.{str_eq, str_eq_iff}
use terminal_wrestling_leagu.Lobby.{Lobby, put, join_queue, pop_next_pair, queue_status}
use terminal_wrestling_leagu.Lobby.Agreed.{IsAgreed, OnChanged}
use terminal_wrestling_leagu.Lobby.Waiting.{Waiting, listed}
use terminal_wrestling_leagu.Lobby.Refine.{Refines}
use terminal_wrestling_leagu.Lobby.Pairs.{Pops, pop_next_pair-Pops, joined, join_queue-Refines}
use terminal_wrestling_leagu.Lobby.Leaving.{ahead, queue_status_lem}

abbrev lobby : Lobby
lobby = record {
  sessions =
      put (put (λ id. none) (97 ∷ []) (some (record { player_id = 97 ∷ []; handle = 65 ∷ [] })))
        (98 ∷ []) (some (record { player_id = 98 ∷ []; handle = 66 ∷ [] }));
  queued_at = put (λ id. none) (97 ∷ []) (some 5);
  queue = (97 ∷ []) ∷ [];
}

lobby-IsAgreed : IsAgreed lobby
lobby-IsAgreed = record {
  once = λ id. ground (arith, str_eq_iff id (97 ∷ []), str_eq_iff (97 ∷ []) id);
}

abbrev full : Lobby
full = record lobby {
  queued_at = put (put (λ id. none) (97 ∷ []) (some 5)) (98 ∷ []) (some 9);
  queue = (97 ∷ []) ∷ (98 ∷ []) ∷ [];
}

full-IsAgreed : IsAgreed full
full-IsAgreed = record {
  once = λ id. ground (
    arith,
    str_eq_iff id (97 ∷ []),
    str_eq_iff (97 ∷ []) id,
    str_eq_iff id (98 ∷ []),
    str_eq_iff (98 ∷ []) id,
  );
}

abbrev line : List Waiting
line = record { player = 97 ∷ []; since = 5 } ∷ record { player = 98 ∷ []; since = 9 } ∷ []

full-Refines : Refines full line
unfolding str_eq
full-Refines = record {
  order = refl;
  distinct = ((refl, tt), (tt, tt));
  known = (refl, (refl, tt));
  absent = λ id l. ground (
    arith,
    str_eq_iff id (97 ∷ []),
    str_eq_iff (97 ∷ []) id,
    str_eq_iff id (98 ∷ []),
    str_eq_iff (98 ∷ []) id,
  );
}

pop_next_pair-Pops_example : Pops 10 (pos 45) line (pop_next_pair 10 (pos 45) full)
pop_next_pair-Pops_example = pop_next_pair-Pops 10 (pos 45) full line full-Refines

join_queue-Refines_example :
    OnChanged (λ next. Refines next (joined 11 (98 ∷ []) line)) (join_queue 11 full (98 ∷ []))
join_queue-Refines_example = join_queue-Refines 11 full (98 ∷ []) line full-Refines

queue_status_lem_example :
    ((queue_status 12 full (98 ∷ [])).in_queue ≡ listed (98 ∷ []) line)
    × (listed (98 ∷ []) line ≡ true
        → (queue_status 12 full (98 ∷ [])).position ≡ ahead (98 ∷ []) line + 1)
queue_status_lem_example = queue_status_lem 12 full (98 ∷ []) line full-Refines
