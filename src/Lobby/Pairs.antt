-- ===== src/Lobby/Pairs.antt =====
-- The queue's operations on those who wait.
use terminal_wrestling_leagu.Common.{
  ℕ, ◌≡◌, refl, sym, ap, ◌∙◌, arith, true, false, ◌||◌, Option, none, some, is_some, List, [], ◌∷◌,
  ◌++◌, if◌then◌else◌, Bool-cases, inl, inr, if_keeps,
}
use terminal_wrestling_leagu.Common.Int.{ℤ}
use terminal_wrestling_leagu.Common.Text.{Str, str_eq, str_eq_iff, str_eq_refl, str_eq_comm}
use terminal_wrestling_leagu.Lobby.{Lobby, put, join_queue, expire_queue, take_pair, pop_next_pair}
use terminal_wrestling_leagu.Lobby.Agreed.{OnChanged}
use terminal_wrestling_leagu.Lobby.Waiting.{
  Waiting, players, first_pair, after_pair, listed, Lacks, IsDistinct, Known,
}
use terminal_wrestling_leagu.Lobby.Refine.{
  Refines, Known-put, unlisted-Lacks, staying, leaving, expire_queue-Expires,
}

record Takes (ws : List Waiting) (out : Option (Str × Str) × Lobby) : Type 0 where
  pub pair : out.0 ≡ first_pair ws
  pub rest : Refines out.1 (after_pair ws)

take_pair_of : (lobby : Lobby) (ws : List Waiting) → Refines lobby ws → Takes ws (take_pair lobby)
unfolding take_pair
take_pair_of lobby [] h = rw (h.order, take_pair) (record { pair = refl; rest = h })
take_pair_of lobby (a ∷ []) h = rw (h.order, take_pair) (record { pair = refl; rest = h })
take_pair_of lobby (a ∷ b ∷ ws) h =
    rw (h.order, take_pair)
      (record {
        pair = refl;
        rest = record {
          order = refl;
          distinct = h.distinct.1.1;
          known =
              Known-put _ b.player none ws h.distinct.1.0
                (Known-put lobby.queued_at a.player none ws h.distinct.0.1 h.known.1.1);
          absent =
              λ id l. ground (arith, h.absent id, str_eq_comm id a.player, str_eq_comm id b.player);
        };
      })

-- What `PopNextPair` promises of a queue `ws`.
pub record Pops (now : ℕ) (timeout : ℤ) (ws : List Waiting)
    (out : Option (Str × Str) × List Str × Lobby) : Type 0 where
  pub pair : out.0 ≡ first_pair (staying now timeout ws)
  pub timed_out : out.1 ≡ players (leaving now timeout ws)
  pub rest : Refines out.2 (after_pair (staying now timeout ws))

-- Of those who wait, the ones who have waited too long are reported, in their order. Of the others the
-- two who came first are the pair, if there are two, and the rest wait on in their order.
pub pop_next_pair-Pops :
    (now : ℕ) (timeout : ℤ) (lobby : Lobby) (ws : List Waiting)
    → Refines lobby ws
    → Pops now timeout ws (pop_next_pair now timeout lobby)
unfolding pop_next_pair
pop_next_pair-Pops now timeout lobby ws h =
    let e = expire_queue-Expires now timeout lobby ws h in
    let t = take_pair_of (expire_queue now timeout lobby).0 (staying now timeout ws) e.stay in
    record { pair = t.pair; timed_out = e.gone; rest = t.rest }

players-append :
    (ws : List Waiting) (w : Waiting) → players (ws ++ (w ∷ [])) ≡ players ws ++ (w.player ∷ [])
players-append [] w = refl
players-append (v ∷ ws) w = ap (λ l. v.player ∷ l) (players-append ws w)

Lacks-append :
    (id : Str) (ws : List Waiting) (w : Waiting)
    → Lacks id ws
    → str_eq w.player id ≡ false
    → Lacks id (ws ++ (w ∷ []))
Lacks-append id [] w h e = (e, tt)
Lacks-append id (v ∷ ws) w h e = (h.0, Lacks-append id ws w h.1 e)

IsDistinct-append :
    (ws : List Waiting) (w : Waiting)
    → Lacks w.player ws
    → IsDistinct ws
    → IsDistinct (ws ++ (w ∷ []))
IsDistinct-append [] w h d = (tt, tt)
IsDistinct-append (v ∷ ws) w h d = (
  Lacks-append v.player ws w d.0 (str_eq_comm w.player v.player ∙ h.0),
  IsDistinct-append ws w h.1 d.1,
)

Known-append :
    (f : Str → Option ℕ) (ws : List Waiting) (w : Waiting)
    → Known f ws
    → f w.player ≡ some w.since
    → Known f (ws ++ (w ∷ []))
Known-append f [] w h e = (e, tt)
Known-append f (v ∷ ws) w h e = (h.0, Known-append f ws w h.1 e)

listed-append :
    (id : Str) (ws : List Waiting) (w : Waiting)
    → listed id (ws ++ (w ∷ [])) ≡ (listed id ws || str_eq w.player id)
listed-append id [] w = ground arith
listed-append id (v ∷ ws) w = ground (arith, listed-append id ws w)

-- Who is listed has a join time.
pub listed-Known :
    (f : Str → Option ℕ) (id : Str) (ws : List Waiting)
    → Known f ws
    → listed id ws ≡ true
    → is_some (f id) ≡ true
listed-Known f id [] h l = cc
listed-Known f id (w ∷ ws) h l =
    ground (arith, h.0, str_eq_iff w.player id, listed-Known f id ws h.1)

-- The queue that a call of `JoinQueue` leaves.
abbrev pub joined : ℕ → Str → List Waiting → List Waiting
joined now id ws = if listed id ws then ws else ws ++ (record { player = id; since = now } ∷ [])

new-Refines :
    (now : ℕ) (lobby : Lobby) (id : Str) (ws : List Waiting)
    → listed id ws ≡ false
    → Refines lobby ws
    → Refines
        (record lobby {
          queued_at = put lobby.queued_at id (some now);
          queue = lobby.queue ++ (id ∷ []);
        })
        (ws ++ (record { player = id; since = now } ∷ []))
new-Refines now lobby id ws new h =
    let w : Waiting = record { player = id; since = now } in
    let lacks = unlisted-Lacks id ws new in
    record {
      order = ap (λ l. l ++ (id ∷ [])) h.order ∙ sym (players-append ws w);
      distinct = IsDistinct-append ws w lacks h.distinct;
      known =
          Known-append _ ws w (Known-put lobby.queued_at id (some now) ws lacks h.known)
            (simp (str_eq_refl id) refl);
      absent = λ key l. ground (arith, listed-append key ws w, str_eq_comm key id, h.absent key);
    }

-- A player who joins and is not refused goes to the end of the queue, and one who waits already keeps
-- the place and the time.
pub join_queue-Refines :
    (now : ℕ) (lobby : Lobby) (id : Str) (ws : List Waiting)
    → Refines lobby ws
    → OnChanged (λ next. Refines next (joined now id ws)) (join_queue now lobby id)
unfolding join_queue
join_queue-Refines now lobby id ws h =
    if_keeps (OnChanged (λ next. Refines next (joined now id ws))) (is_some (lobby.sessions id)) _ _
      (elim (Bool-cases (listed id ws)) [
        | inl there ↦ simp (there, listed-Known lobby.queued_at id ws h.known there) h
        | inr new ↦
            let none_yet : is_some (lobby.queued_at id) ≡ false = simp (h.absent id new) refl in
            simp (new, none_yet) (new-Refines now lobby id ws new h)
      ])
      tt
