-- ===== src/Lobby/Leaving.antt =====
-- Players who leave the queue or look at it.
use terminal_wrestling_leagu.Common.{
  ℕ, ◌+◌, ◌≡◌, sym, arith, true, List, [], ◌∷◌, if◌then◌else◌, Bool-cases, Option-cases, inl, inr,
}
use terminal_wrestling_leagu.Common.Text.{Str, str_eq}
use terminal_wrestling_leagu.Lobby.{Lobby, position_from, queue_status}
use terminal_wrestling_leagu.Lobby.Waiting.{Waiting, players, listed}
use terminal_wrestling_leagu.Lobby.Refine.{Refines}
use terminal_wrestling_leagu.Lobby.Pairs.{listed-Known}

-- The queue without a player.
abbrev pub dropped : Str → List Waiting → List Waiting
dropped id [] = []
dropped id (w ∷ ws) = if str_eq w.player id then dropped id ws else w ∷ dropped id ws

-- How many stand in front of a player.
abbrev pub ahead : Str → List Waiting → ℕ
ahead id [] = 0
ahead id (w ∷ ws) = if str_eq w.player id then 0 else 1 + ahead id ws

position-ahead :
    (idx : ℕ) (id : Str) (ws : List Waiting)
    → listed id ws ≡ true
    → position_from idx id (players ws) ≡ idx + ahead id ws + 1
unfolding position_from
position-ahead idx id [] h = cc
position-ahead idx id (w ∷ ws) h = ground (arith, position-ahead (idx + 1) id ws)

-- The status of a player says whether the player waits, and if so at the position after all those who
-- came first, counted from 1.
pub queue_status_lem :
    (now : ℕ) (lobby : Lobby) (id : Str) (ws : List Waiting)
    → Refines lobby ws
    → ((queue_status now lobby id).in_queue ≡ listed id ws)
      × (listed id ws ≡ true → (queue_status now lobby id).position ≡ ahead id ws + 1)
unfolding queue_status
queue_status_lem now lobby id ws h = elim (Bool-cases (listed id ws)) [
  | inr missing ↦ (rw (h.absent id missing, queue_status) (sym missing), λ l. cc)
  | inl there ↦ elim (Option-cases (lobby.queued_at id)) [
    | inl never ↦ absurd (ground (arith, listed-Known lobby.queued_at id ws h.known there))
    | inr (at, e) ↦ (
      rw (e, queue_status) (sym there),
      λ l. rw (e, queue_status) (rw h.order (omega (arith, position-ahead 0 id ws there))),
    )
  ]
]
