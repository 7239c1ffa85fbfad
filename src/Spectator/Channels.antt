-- ===== src/Spectator/Channels.antt =====
-- The hub under the calls that it serves.
use terminal_wrestling_leagu.Common.{ℕ, ◌≤◌, ◌≡◌, arith, some, subst}
use terminal_wrestling_leagu.Common.Text.{Str}
use terminal_wrestling_leagu.Spectator.{
  Hub, attached, new_hub, register_match, unregister_match, add_watcher, remove_watcher,
}
use terminal_wrestling_leagu.Spectator.Uses.{
  uses, OnAttached, add_watcher_all, added-uses, register-uses, unregister-uses, remove-uses,
}

-- The calls that the hub serves, one after the other. `Brings` says which channels the callers of
-- `AddWatcher` bring to a hub; the hub itself does not ask.
pub data Step (max_per_match : ℕ) (Brings : ℕ → Hub → Type 0) : Hub → Hub → Type 0 where
  registers : (hub : Hub) (id : Str) → Step max_per_match Brings hub (register_match hub id)
  unregisters : (hub : Hub) (id : Str) → Step max_per_match Brings hub (unregister_match hub id)
  adds :
      (hub next : Hub) (match_id watcher_id : Str) (ch : ℕ)
      → Brings ch hub
      → add_watcher hub match_id watcher_id (some ch) max_per_match ≡ attached next
      → Step max_per_match Brings hub next
  removes :
      (hub : Hub) (match_id watcher_id : Str)
      → Step max_per_match Brings hub (remove_watcher hub match_id watcher_id)

pub data Reach (max_per_match : ℕ) (Brings : ℕ → Hub → Type 0) : Hub → Type 0 where
  starts : Reach max_per_match Brings new_hub
  steps :
      {hub next : Hub}
      → Reach max_per_match Brings hub
      → Step max_per_match Brings hub next
      → Reach max_per_match Brings next

-- A channel that the hub neither holds nor has closed, as one that is made for the call.
pub record IsNew (ch : ℕ) (hub : Hub) : Type 0 where
  pub new : uses ch hub ≡ 0

-- Every channel has one use at the most.
pub record IsSingle (hub : Hub) : Type 0 where
  pub single : (ch : ℕ) → uses ch hub ≤ 1

add-IsSingle :
    (hub : Hub) (match_id watcher_id : Str) (ch max_per_match : ℕ)
    → uses ch hub ≡ 0
    → IsSingle hub
    → OnAttached IsSingle (add_watcher hub match_id watcher_id (some ch) max_per_match)
add-IsSingle hub match_id watcher_id ch max_per_match new h =
    add_watcher_all IsSingle hub match_id watcher_id (some ch) max_per_match λ c ws same e _.
      record {
        single =
            λ x. ground (arith, same, new, h.single x, added-uses hub match_id watcher_id c x ws e);
      }

Step-IsSingle :
    {max_per_match : ℕ} {hub next : Hub}
    → Step max_per_match IsNew hub next
    → IsSingle hub
    → IsSingle next
Step-IsSingle (registers hub id) h = record {
  single = λ ch. omega (arith, h.single ch, register-uses hub id ch);
}
Step-IsSingle (unregisters hub id) h = record {
  single = λ ch. omega (arith, h.single ch, unregister-uses hub id ch);
}
Step-IsSingle {max_per_match} (adds hub next match_id watcher_id ch new e) h =
    subst (OnAttached IsSingle) e (add-IsSingle hub match_id watcher_id ch max_per_match new.new h)
Step-IsSingle (removes hub match_id watcher_id) h = record {
  single = λ ch. omega (arith, h.single ch, remove-uses hub match_id watcher_id ch);
}

-- If every `AddWatcher` that succeeded was called with a channel which the hub neither held nor had
-- closed, as `WatchByHandle` does with the channel that it makes: whatever calls the hub has served,
-- each channel is attached to one watcher of one match and never closed, or attached to none and
-- closed once at the most.
pub Reach-IsSingle : {max_per_match : ℕ} {hub : Hub} → Reach max_per_match IsNew hub → IsSingle hub
unfolding new_hub
Reach-IsSingle starts = record { single = λ ch. omega arith }
Reach-IsSingle (steps r s) = Step-IsSingle s (Reach-IsSingle r)
