-- ===== src/Spectator/Capacity.antt =====
-- How many watchers a match has.
use terminal_wrestling_leagu.Common.{
  ℕ, zero, suc, ◌≤◌, ◌≡◌, refl, arith, ◌||◌, Option, some, List, [], ◌∷◌, All, length, subst,
  Bool-cases, Option-cases, inl, inr, if_keeps, is_some,
}
use terminal_wrestling_leagu.Common.Text.{Str, str_eq, is_empty}
use terminal_wrestling_leagu.Spectator.{
  Watcher, WatchedMatch, Hub, new_hub, capacity, find_match, find_watcher, delete_match,
  delete_watcher, update_match, register_match, unregister_match, add_watcher, detach,
  remove_watcher,
}
use terminal_wrestling_leagu.Spectator.Uses.{OnAttached, add_watcher_all}
use terminal_wrestling_leagu.Spectator.Channels.{
  Step, registers, unregisters, adds, removes, Reach, starts, steps,
}

-- The watchers that a match may have: as many as are asked for, and 20 where 0 is asked for.
abbrev pub bound : ℕ → ℕ
bound zero = 20
bound (suc k) = suc k

capacity-bound : (k : ℕ) → capacity k ≡ bound k
unfolding capacity
capacity-bound zero = refl
capacity-bound (suc k) = ground arith

abbrev Within : ℕ → WatchedMatch → Type 0
Within n m = length m.watchers ≤ n

-- No match has more watchers than the bound.
pub record IsCapped (n : ℕ) (hub : Hub) : Type 0 where
  pub capped : All (Within n) hub.matches

delete-Within :
    (n : ℕ) (id : Str) (ms : List WatchedMatch)
    → All (Within n) ms
    → All (Within n) (delete_match id ms)
unfolding delete_match
delete-Within n id [] h = h
delete-Within n id (m ∷ ms) h =
    if_keeps (All (Within n)) (str_eq m.match_id id) ms (m ∷ delete_match id ms) h.1
      (h.0, delete-Within n id ms h.1)

update-Within :
    (n : ℕ) (id : Str) (f : List Watcher → List Watcher) (ms : List WatchedMatch)
    → ((ws : List Watcher) → find_match id ms ≡ some ws → length ws ≤ n → length (f ws) ≤ n)
    → All (Within n) ms
    → All (Within n) (update_match id f ms)
unfolding update_match find_match
update-Within n id f [] keep h = h
update-Within n id f (m ∷ ms) keep h = elim (Bool-cases (str_eq m.match_id id)) [
  | inl hit ↦ simp hit (keep m.watchers (simp hit refl) h.0, h.1)
  | inr miss ↦ simp miss (h.0, update-Within n id f ms (λ ws e. keep ws (simp miss e)) h.1)
]

length-delete_watcher : (id : Str) (ws : List Watcher) → length (delete_watcher id ws) ≤ length ws
unfolding delete_watcher
length-delete_watcher id [] = omega arith
length-delete_watcher id (w ∷ ws) = ground (arith, length-delete_watcher id ws)

module _ (k : ℕ) where
  register-IsCapped :
      (hub : Hub) (id : Str)
      → IsCapped (capacity k) hub
      → IsCapped (capacity k) (register_match hub id)
  unfolding register_match
  register-IsCapped hub id h = if_keeps (IsCapped (capacity k)) (is_empty id) _ _ h (
      if_keeps (IsCapped (capacity k)) (is_some (find_match id hub.matches)) _ _ h
        (record { capped = (omega arith, h.capped) }))

  unregister-IsCapped :
      (hub : Hub) (id : Str)
      → IsCapped (capacity k) hub
      → IsCapped (capacity k) (unregister_match hub id)
  unfolding unregister_match
  unregister-IsCapped hub id h =
      if_keeps (IsCapped (capacity k)) (is_empty id) _ _ h
        (elim (Option-cases (find_match id hub.matches)) [
          | inl missing ↦ simp missing h
          | inr (ws, e) ↦ simp e (record { capped = delete-Within _ id hub.matches h.capped })
        ])

  detach-IsCapped :
      (hub : Hub) (match_id watcher_id : Str) (ws : List Watcher)
      → IsCapped (capacity k) hub
      → IsCapped (capacity k) (detach hub match_id watcher_id ws)
  unfolding detach
  detach-IsCapped hub match_id watcher_id ws h = elim (Option-cases (find_watcher watcher_id ws)) [
    | inl missing ↦ rw (missing, detach) h
    | inr (c, e) ↦
        rw (e, detach)
          (record {
            capped =
                update-Within _ match_id (delete_watcher watcher_id) hub.matches
                  (λ ws _ le. omega (arith, length-delete_watcher watcher_id ws)) h.capped;
          })
  ]

  remove-IsCapped :
      (hub : Hub) (match_id watcher_id : Str)
      → IsCapped (capacity k) hub
      → IsCapped (capacity k) (remove_watcher hub match_id watcher_id)
  unfolding remove_watcher
  remove-IsCapped hub match_id watcher_id h =
      if_keeps (IsCapped (capacity k)) (is_empty match_id || is_empty watcher_id) _ _ h
        (elim (Option-cases (find_match match_id hub.matches)) [
          | inl missing ↦ simp missing h
          | inr (ws, e) ↦ simp e (detach-IsCapped hub match_id watcher_id ws h)
        ])

  add-IsCapped :
      (hub : Hub) (match_id watcher_id : Str) (channel : Option ℕ)
      → IsCapped (capacity k) hub
      → OnAttached (IsCapped (capacity k)) (add_watcher hub match_id watcher_id channel k)
  add-IsCapped hub match_id watcher_id channel h =
      add_watcher_all (IsCapped (capacity k)) hub match_id watcher_id channel k λ ch ws _ e room.
        record {
          capped =
              update-Within _ match_id
                (λ (l : List Watcher). record { watcher_id = watcher_id; channel = ch } ∷ l)
                hub.matches (λ ws' e' le. let same : ws ≡ ws' = cc in rw (← same) (ground arith))
                h.capped;
        }

  Step-IsCapped :
      {Brings : ℕ → Hub → Type 0} {hub next : Hub}
      → Step k Brings hub next
      → IsCapped (capacity k) hub
      → IsCapped (capacity k) next
  Step-IsCapped (registers hub id) h = register-IsCapped hub id h
  Step-IsCapped (unregisters hub id) h = unregister-IsCapped hub id h
  Step-IsCapped (adds hub next match_id watcher_id ch new e) h =
      subst (OnAttached (IsCapped (capacity k))) e
        (add-IsCapped hub match_id watcher_id (some ch) h)
  Step-IsCapped (removes hub match_id watcher_id) h = remove-IsCapped hub match_id watcher_id h

  run-IsCapped :
      {Brings : ℕ → Hub → Type 0} {hub : Hub} → Reach k Brings hub → IsCapped (capacity k) hub
  unfolding new_hub
  run-IsCapped starts = record { capped = tt }
  run-IsCapped (steps r s) = Step-IsCapped s (run-IsCapped r)

  -- Whatever calls the hub has served, each `AddWatcher` with the same maxPerMatch and with any
  -- channel, no match has more watchers than maxPerMatch, or than 20 if maxPerMatch is 0.
  pub Reach-IsCapped :
      {Brings : ℕ → Hub → Type 0} {hub : Hub} → Reach k Brings hub → IsCapped (bound k) hub
  Reach-IsCapped {hub} r = subst (λ n. IsCapped n hub) (capacity-bound k) (run-IsCapped r)
