-- ===== src/Spectator/Uses.antt =====
-- How often the hub holds each channel, attached or closed.
use terminal_wrestling_leagu.Common.{
  ℕ, ◌+◌, ◌≡◌, refl, arith, false, ◌||◌, Option, none, some, List, [], ◌∷◌, ◌++◌, ◌==◌, leb,
  is_some, Bool-cases, Option-cases, inl, inr, if_keeps, if◌then◌else◌, length,
}
use terminal_wrestling_leagu.Common.Text.{Str, str_eq, is_empty}
use terminal_wrestling_leagu.Spectator.{
  Watcher, WatchedMatch, Hub, Attached, attached, rejected, find_match, find_watcher, delete_match,
  delete_watcher, update_match, channels, register_match, unregister_match, attach, add_watcher,
  capacity, detach, remove_watcher,
}

abbrev pub count : ℕ → List ℕ → ℕ
count ch [] = 0
count ch (x ∷ xs) = (if x == ch then 1 else 0) + count ch xs

-- How many watchers of any match a channel is attached to.
abbrev pub attachments : ℕ → List WatchedMatch → ℕ
attachments ch [] = 0
attachments ch (m ∷ ms) = count ch (channels m.watchers) + attachments ch ms

abbrev pub uses : ℕ → Hub → ℕ
uses ch hub = attachments ch hub.matches + count ch hub.closed

pub count-append : (ch : ℕ) (xs ys : List ℕ) → count ch (xs ++ ys) ≡ count ch xs + count ch ys
count-append ch [] ys = omega arith
count-append ch (x ∷ xs) ys = omega (arith, count-append ch xs ys)

pub attachments-delete :
    (ch : ℕ) (id : Str) (ms : List WatchedMatch) (ws : List Watcher)
    → find_match id ms ≡ some ws
    → attachments ch (delete_match id ms) + count ch (channels ws) ≡ attachments ch ms
unfolding find_match delete_match
attachments-delete ch id [] ws h = cc
attachments-delete ch id (m ∷ ms) ws h = elim (Bool-cases (str_eq m.match_id id)) [
  | inl hit ↦ ground arith
  | inr miss ↦ ground (arith, attachments-delete ch id ms ws)
]

pub attachments-update :
    (ch : ℕ) (id : Str) (f : List Watcher → List Watcher) (ms : List WatchedMatch)
    (ws : List Watcher)
    → find_match id ms ≡ some ws
    → attachments ch (update_match id f ms) + count ch (channels ws)
      ≡ attachments ch ms + count ch (channels (f ws))
unfolding find_match update_match
attachments-update ch id f [] ws h = cc
attachments-update ch id f (m ∷ ms) ws h = elim (Bool-cases (str_eq m.match_id id)) [
  | inl hit ↦ ground arith
  | inr miss ↦ ground (arith, attachments-update ch id f ms ws)
]

pub count-delete_watcher :
    (ch : ℕ) (id : Str) (ws : List Watcher) (c : ℕ)
    → find_watcher id ws ≡ some c
    → count ch (channels (delete_watcher id ws)) + count ch (c ∷ []) ≡ count ch (channels ws)
unfolding find_watcher delete_watcher
count-delete_watcher ch id [] c h = cc
count-delete_watcher ch id (w ∷ ws) c h = elim (Bool-cases (str_eq w.watcher_id id)) [
  | inl hit ↦ ground arith
  | inr miss ↦ ground (arith, count-delete_watcher ch id ws c)
]

pub register-uses : (hub : Hub) (id : Str) (ch : ℕ) → uses ch (register_match hub id) ≡ uses ch hub
unfolding register_match
register-uses hub id ch = ground arith

pub unregister-uses :
    (hub : Hub) (id : Str) (ch : ℕ) → uses ch (unregister_match hub id) ≡ uses ch hub
unfolding unregister_match
unregister-uses hub id ch =
    if_keeps (λ (h : Hub). uses ch h ≡ uses ch hub) (is_empty id) _ _ refl
      (elim (Option-cases (find_match id hub.matches)) [
        | inl missing ↦ simp missing refl
        | inr (ws, e) ↦ simp e (
            omega (
              arith,
              attachments-delete ch id hub.matches ws e,
              count-append ch (channels ws) hub.closed,
            ))
      ])

detach-uses :
    (hub : Hub) (match_id watcher_id : Str) (ws : List Watcher) (ch : ℕ)
    → find_match match_id hub.matches ≡ some ws
    → uses ch (detach hub match_id watcher_id ws) ≡ uses ch hub
unfolding detach
detach-uses hub match_id watcher_id ws ch e = elim (Option-cases (find_watcher watcher_id ws)) [
  | inl missing ↦ rw (missing, detach) refl
  | inr (c, e') ↦
      rw (e', detach)
        (omega (
          arith,
          attachments-update ch match_id (delete_watcher watcher_id) hub.matches ws e,
          count-delete_watcher ch watcher_id ws c e',
        ))
]

pub remove-uses :
    (hub : Hub) (match_id watcher_id : Str) (ch : ℕ)
    → uses ch (remove_watcher hub match_id watcher_id) ≡ uses ch hub
unfolding remove_watcher
remove-uses hub match_id watcher_id ch =
    if_keeps (λ (h : Hub). uses ch h ≡ uses ch hub) (is_empty match_id || is_empty watcher_id) _ _
      refl
      (elim (Option-cases (find_match match_id hub.matches)) [
        | inl missing ↦ simp missing refl
        | inr (ws, e) ↦ simp e (detach-uses hub match_id watcher_id ws ch e)
      ])

abbrev pub OnAttached {ℓ} : (Hub → Type ℓ) → Attached → Type ℓ
OnAttached P (attached hub) = P hub
OnAttached P (rejected e) = Unit

-- The hub after `attach`, when it does attach.
abbrev pub with_watcher : Hub → Str → Str → ℕ → Hub
with_watcher hub match_id watcher_id channel = record hub {
  matches =
      update_match match_id (λ ws. record { watcher_id = watcher_id; channel = channel } ∷ ws)
        hub.matches;
}

attach_all :
    (P : Hub → Type 0) (hub : Hub) (match_id watcher_id : Str) (ch cap : ℕ) (ws : List Watcher)
    → (leb cap (length ws) ≡ false → P (with_watcher hub match_id watcher_id ch))
    → OnAttached P (attach hub match_id watcher_id ch cap ws)
unfolding attach
attach_all P hub match_id watcher_id ch cap ws h =
    elim (Bool-cases (is_some (find_watcher watcher_id ws))) [
      | inl there ↦ simp there tt
      | inr new ↦ elim (Bool-cases (leb cap (length ws))) [
        | inl full ↦ simp (new, full) tt
        | inr room ↦ simp (new, room) (h room)
      ]
    ]

-- What holds of the hub with the watcher, under the tests, holds of what `add_watcher` makes.
pub add_watcher_all :
    (P : Hub → Type 0) (hub : Hub) (match_id watcher_id : Str) (channel : Option ℕ)
    (max_per_match : ℕ)
    → ((ch : ℕ) (ws : List Watcher)
        → channel ≡ some ch
        → find_match match_id hub.matches ≡ some ws
        → leb (capacity max_per_match) (length ws) ≡ false
        → P (with_watcher hub match_id watcher_id ch))
    → OnAttached P (add_watcher hub match_id watcher_id channel max_per_match)
unfolding add_watcher
add_watcher_all P hub match_id watcher_id none max_per_match h = tt
add_watcher_all P hub match_id watcher_id (some ch) max_per_match h =
    if_keeps (OnAttached P) (is_empty match_id || is_empty watcher_id) _ _ tt
      (elim (Option-cases (find_match match_id hub.matches)) [
        | inl missing ↦ rw (missing, OnAttached) tt
        | inr (ws, e) ↦
            rw (e, OnAttached)
              (attach_all P hub match_id watcher_id ch (capacity max_per_match) ws (h ch ws refl e))
      ])

pub added-uses :
    (hub : Hub) (match_id watcher_id : Str) (channel ch : ℕ) (ws : List Watcher)
    → find_match match_id hub.matches ≡ some ws
    → uses ch (with_watcher hub match_id watcher_id channel) ≡ uses ch hub + count ch (channel ∷ [])
added-uses hub match_id watcher_id channel ch ws e = omega (
  arith,
  attachments-update ch match_id
      (λ (l : List Watcher). record { watcher_id = watcher_id; channel = channel } ∷ l) hub.matches
      ws e,
)
