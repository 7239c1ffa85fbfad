-- ===== src/Lobby/Refine.antt =====
-- The lobby's queue and map of join times, seen as a list of those who wait.
use terminal_wrestling_leagu.Common.{
  ℕ, ◌≡◌, refl, ◌∙◌, arith, true, false, ◌||◌, Option, none, some, List, [], ◌∷◌, if◌then◌else◌,
  Bool-cases, inl, inr, if_keeps,
}
use terminal_wrestling_leagu.Common.Int.{ℤ, pos, ltb_ℤ}
use terminal_wrestling_leagu.Common.Text.{Str, str_eq, str_eq_comm}
use terminal_wrestling_leagu.Lobby.{Lobby, put, Expired, expire, expire_queue}
use terminal_wrestling_leagu.Lobby.Waiting.{
  Waiting, players, is_late, late, alive, listed, Lacks, IsDistinct, Known,
}

-- The lobby's queue is the list `ws`.
pub record Refines (lobby : Lobby) (ws : List Waiting) : Type 0 where
  pub order : lobby.queue ≡ players ws
  pub distinct : IsDistinct ws
  pub known : Known lobby.queued_at ws
  pub absent : (id : Str) → listed id ws ≡ false → lobby.queued_at id ≡ none

pub Known-put :
    (f : Str → Option ℕ) (id : Str) (v : Option ℕ) (ws : List Waiting)
    → Lacks id ws
    → Known f ws
    → Known (put f id v) ws
Known-put f id v [] l h = tt
Known-put f id v (w ∷ ws) l h = (simp l.0 h.0, Known-put f id v ws l.1 h.1)

Lacks-alive :
    (now : ℕ) (timeout : ℤ) (id : Str) (ws : List Waiting)
    → Lacks id ws
    → Lacks id (alive now timeout ws)
unfolding alive
Lacks-alive now timeout id [] h = tt
Lacks-alive now timeout id (w ∷ ws) h =
    if_keeps (Lacks id) (is_late now timeout w) (alive now timeout ws) (w ∷ alive now timeout ws)
      (Lacks-alive now timeout id ws h.1) (h.0, Lacks-alive now timeout id ws h.1)

IsDistinct-alive :
    (now : ℕ) (timeout : ℤ) (ws : List Waiting) → IsDistinct ws → IsDistinct (alive now timeout ws)
unfolding alive
IsDistinct-alive now timeout [] h = tt
IsDistinct-alive now timeout (w ∷ ws) h =
    if_keeps IsDistinct (is_late now timeout w) (alive now timeout ws) (w ∷ alive now timeout ws)
      (IsDistinct-alive now timeout ws h.1)
      (Lacks-alive now timeout w.player ws h.0, IsDistinct-alive now timeout ws h.1)

pub Lacks-unlisted : (id : Str) (ws : List Waiting) → Lacks id ws → listed id ws ≡ false
Lacks-unlisted id [] h = refl
Lacks-unlisted id (w ∷ ws) h = ground (arith, Lacks-unlisted id ws h.1)

pub unlisted-Lacks : (id : Str) (ws : List Waiting) → listed id ws ≡ false → Lacks id ws
unlisted-Lacks id [] h = tt
unlisted-Lacks id (w ∷ ws) h = (ground arith, unlisted-Lacks id ws (ground arith))

-- What the loop of `PopNextPair` does to a queue whose join times are known.
record Expiry (now : ℕ) (timeout : ℤ) (f : Str → Option ℕ) (ws : List Waiting) (e : Expired)
    : Type 0 where
  kept : e.kept ≡ players (alive now timeout ws)
  gone : e.timed_out ≡ players (late now timeout ws)
  known : Known e.queued_at (alive now timeout ws)
  others : (id : Str) → listed id ws ≡ false → e.queued_at id ≡ f id
  cleared :
      (id : Str)
      → listed id (alive now timeout ws) ≡ false
      → (listed id ws ≡ false → f id ≡ none)
      → e.queued_at id ≡ none

module _ (now : ℕ) (timeout : ℤ) (f : Str → Option ℕ) (w : Waiting) (ws : List Waiting)
    (lacks : Lacks w.player ws) where
  late-Expiry :
      (e : Expired)
      → is_late now timeout w ≡ true
      → Expiry now timeout (put f w.player none) ws e
      → Expiry now timeout f (w ∷ ws) (record e { timed_out = w.player ∷ e.timed_out })
  unfolding late alive
  late-Expiry e old h = record {
    kept = simp old h.kept;
    gone = simp (old, h.gone) refl;
    known = simp old h.known;
    others = λ id l. ground (arith, h.others id, str_eq_comm id w.player);
    cleared = λ id l absent. h.cleared id (simp old at l) (λ l'.
        elim (Bool-cases (str_eq id w.player)) [
          | inl same ↦ simp same refl
          | inr other ↦ simp other (absent (ground (arith, str_eq_comm id w.player)))
        ]);
  }

  early-Expiry :
      (e : Expired)
      → is_late now timeout w ≡ false
      → f w.player ≡ some w.since
      → Expiry now timeout f ws e
      → Expiry now timeout f (w ∷ ws) (record e { kept = w.player ∷ e.kept })
  unfolding late alive
  early-Expiry e new at h = record {
    kept = simp (new, h.kept) refl;
    gone = simp new h.gone;
    known = simp new (h.others w.player (Lacks-unlisted w.player ws lacks) ∙ at, h.known);
    others = λ id l. h.others id (ground arith);
    cleared = λ id l absent.
        let l' : (str_eq w.player id || listed id (alive now timeout ws)) ≡ false = simp new at l in
        h.cleared id (ground arith) (λ l''. absent (ground arith));
  }

expire-Expiry :
    (now : ℕ) (timeout : ℤ) (f : Str → Option ℕ) (ws : List Waiting)
    → IsDistinct ws
    → Known f ws
    → Expiry now timeout f ws (expire now timeout f (players ws))
unfolding expire late alive
expire-Expiry now timeout f [] d k = record {
  kept = refl;
  gone = refl;
  known = tt;
  others = λ id l. refl;
  cleared = λ id l absent. absent refl;
}
expire-Expiry now timeout f (w ∷ ws) d k = elim (Bool-cases (is_late now timeout w)) [
  | inl old ↦
      rw (k.0, expire)
        (simp old (
          late-Expiry now timeout f w ws d.0 _ old (
            expire-Expiry now timeout (put f w.player none) ws d.1
              (Known-put f w.player none ws d.0 k.1))))
  | inr new ↦
      rw (k.0, expire)
        (simp new
          (early-Expiry now timeout f w ws d.0 _ new k.0 (expire-Expiry now timeout f ws d.1 k.1)))
]

-- Those who do not wait too long; a limit that is not positive lets everybody wait.
abbrev pub staying : ℕ → ℤ → List Waiting → List Waiting
staying now timeout ws = if ltb_ℤ (pos 0) timeout then alive now timeout ws else ws

abbrev pub leaving : ℕ → ℤ → List Waiting → List Waiting
leaving now timeout ws = if ltb_ℤ (pos 0) timeout then late now timeout ws else []

pub record Expires (now : ℕ) (timeout : ℤ) (ws : List Waiting) (out : Lobby × List Str)
    : Type 0 where
  pub stay : Refines out.0 (staying now timeout ws)
  pub gone : out.1 ≡ players (leaving now timeout ws)

pub expire_queue-Expires :
    (now : ℕ) (timeout : ℤ) (lobby : Lobby) (ws : List Waiting)
    → Refines lobby ws
    → Expires now timeout ws (expire_queue now timeout lobby)
unfolding expire_queue
expire_queue-Expires now timeout lobby ws h = elim (Bool-cases (ltb_ℤ (pos 0) timeout)) [
  | inr never ↦ simp never (record { stay = simp never h; gone = simp never refl })
  | inl limit ↦
      let e : Expiry now timeout lobby.queued_at ws
          (expire now timeout lobby.queued_at lobby.queue) =
        rw h.order (expire-Expiry now timeout lobby.queued_at ws h.distinct h.known) in
      simp limit (record {
        stay = simp limit (record {
          order = e.kept;
          distinct = IsDistinct-alive now timeout ws h.distinct;
          known = e.known;
          absent = λ id l. e.cleared id l (h.absent id);
        });
        gone = simp limit e.gone;
      })
]
