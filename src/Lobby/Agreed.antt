-- ===== src/Lobby/Agreed.antt =====
-- The queue and the join times of the lobby.
use terminal_wrestling_leagu.Common.{
  ℕ, ◌+◌, ◌≤◌, ◌≡◌, refl, sym, ap, ◌∙◌, arith, Bool, true, false, Option, none, some, is_some, List,
  [], ◌∷◌, ◌++◌, if◌then◌else◌, Bool-cases, Option-cases, inl, inr, if_keeps,
}
use terminal_wrestling_leagu.Common.Int.{ℤ, pos, ltb_ℤ, sub_ℕ, leb_ℤ}
use terminal_wrestling_leagu.Common.Text.{Str, str_eq, str_eq_iff, str_eq_refl}
use terminal_wrestling_leagu.Lobby.{
  Lobby, put, without, remove_queue_locked, unregister, join_queue, leave_queue, Changed, changed,
  refused, Expired, expire, expire_queue, take_pair, pop_next_pair,
}

abbrev pub one_if : Bool → ℕ
one_if b = if b then 1 else 0

-- How often a player stands in the queue.
abbrev pub count : Str → List Str → ℕ
count id [] = 0
count id (x ∷ xs) = one_if (str_eq x id) + count id xs

-- A player stands in the queue once if a join time is noted, and not at all if none is.
pub record IsAgreed (lobby : Lobby) : Type 0 where
  pub once : (id : Str) → count id lobby.queue ≡ one_if (is_some (lobby.queued_at id))

count-append : (id : Str) (xs ys : List Str) → count id (xs ++ ys) ≡ count id xs + count id ys
count-append id [] ys = omega arith
count-append id (x ∷ xs) ys = omega (arith, count-append id xs ys)

count-without :
    (id p : Str) (xs : List Str)
    → count id (without p xs) ≡ (if str_eq id p then 0 else count id xs)
unfolding without
count-without id p [] = ground arith
count-without id p (x ∷ xs) =
    ground (arith, count-without id p xs, str_eq_iff x p, str_eq_iff id p, str_eq_iff x id)

remove-IsAgreed :
    (lobby : Lobby) (id : Str) → IsAgreed lobby → IsAgreed (remove_queue_locked lobby id)
unfolding remove_queue_locked
remove-IsAgreed lobby id h =
    if_keeps IsAgreed (is_some (lobby.queued_at id)) _ _
      (record { once = λ key. ground (arith, count-without key id lobby.queue, h.once key) }) h

abbrev pub OnChanged : (Lobby → Type 0) → Changed → Type 0
OnChanged P (changed lobby) = P lobby
OnChanged P (refused e) = Unit

-- Unregistering a player, queued or not, keeps the queue and the join times in agreement.
pub unregister-IsAgreed :
    (lobby : Lobby) (id : Str) → IsAgreed lobby → IsAgreed (unregister lobby id)
unfolding unregister
unregister-IsAgreed lobby id h = remove-IsAgreed _ id (record { once = h.once })

leave_queue-IsAgreed :
    (lobby : Lobby) (id : Str) → IsAgreed lobby → OnChanged IsAgreed (leave_queue lobby id)
unfolding leave_queue
leave_queue-IsAgreed lobby id h =
    if_keeps (OnChanged IsAgreed) (is_some (lobby.sessions id)) _ _ (remove-IsAgreed lobby id h) tt

joined-IsAgreed :
    (now : ℕ) (lobby : Lobby) (id : Str)
    → is_some (lobby.queued_at id) ≡ false
    → IsAgreed lobby
    → IsAgreed (record lobby {
      queued_at = put lobby.queued_at id (some now);
      queue = lobby.queue ++ (id ∷ []);
    })
joined-IsAgreed now lobby id none_yet h = record {
  once = λ key. ground (
    arith,
    count-append key lobby.queue (id ∷ []),
    h.once key,
    h.once id,
    str_eq_iff key id,
    str_eq_iff id key,
  );
}

-- Joining the queue keeps the queue and the join times in agreement wherever it is not refused, for a
-- player who is queued already too.
pub join_queue-IsAgreed :
    (now : ℕ) (lobby : Lobby) (id : Str)
    → IsAgreed lobby
    → OnChanged IsAgreed (join_queue now lobby id)
unfolding join_queue
join_queue-IsAgreed now lobby id h =
    if_keeps (OnChanged IsAgreed) (is_some (lobby.sessions id)) _ _
      (elim (Bool-cases (is_some (lobby.queued_at id))) [
        | inl there ↦ simp there h
        | inr new ↦ simp new (joined-IsAgreed now lobby id new h)
      ])
      tt

-- What the loop takes out of the queue it takes out of the join times.
record Balance (queued_at : Str → Option ℕ) (queue : List Str) (e : Expired) : Type 0 where
  pub even :
      (id : Str)
      → count id e.kept + one_if (is_some (queued_at id))
        ≡ count id queue + one_if (is_some (e.queued_at id))

-- No player stands in the queue more often than a join time is noted.
abbrev Covered : (Str → Option ℕ) → List Str → Type 0
Covered queued_at queue = (id : Str) → count id queue ≤ one_if (is_some (queued_at id))

late-Balance :
    (queued_at : Str → Option ℕ) (x : Str) (xs : List Str) (e : Expired)
    → is_some (queued_at x) ≡ true
    → Covered queued_at (x ∷ xs)
    → Balance (put queued_at x none) xs e
    → Balance queued_at (x ∷ xs) (record e { timed_out = x ∷ e.timed_out })
late-Balance queued_at x xs e there h b = record {
  even = λ id. ground (arith, b.even id, h x, str_eq_refl x, str_eq_iff id x, str_eq_iff x id);
}

put-Covered :
    (queued_at : Str → Option ℕ) (x : Str) (xs : List Str)
    → Covered queued_at (x ∷ xs)
    → is_some (queued_at x) ≡ true
    → Covered (put queued_at x none) xs
put-Covered queued_at x xs h there id =
    ground (arith, h x, h id, str_eq_refl x, str_eq_iff id x, str_eq_iff x id)

early-Balance :
    (queued_at : Str → Option ℕ) (x : Str) (xs : List Str) (e : Expired)
    → Balance queued_at xs e
    → Balance queued_at (x ∷ xs) (record e { kept = x ∷ e.kept })
early-Balance queued_at x xs e b = record { even = λ id. omega (arith, b.even id) }

expire-Balance :
    (now : ℕ) (timeout : ℤ) (queued_at : Str → Option ℕ) (queue : List Str)
    → Covered queued_at queue
    → Balance queued_at queue (expire now timeout queued_at queue)
unfolding expire
expire-Balance now timeout queued_at [] h = record { even = λ id. refl }
expire-Balance now timeout queued_at (x ∷ xs) h = elim (Option-cases (queued_at x)) [
  | inl absent ↦ absurd (ground (arith, h x, str_eq_refl x))
  | inr (at, e) ↦
      let there : is_some (queued_at x) ≡ true = simp e refl in
      rw (e, expire)
        (if_keeps (Balance queued_at (x ∷ xs)) (leb_ℤ timeout (sub_ℕ now at)) _ _
          (late-Balance queued_at x xs _ there h (
            expire-Balance now timeout (put queued_at x none) xs
              (put-Covered queued_at x xs h there)))
          (early-Balance queued_at x xs _
            (expire-Balance now timeout queued_at xs (λ id. omega (arith, h id)))))
]

expired-IsAgreed :
    (lobby : Lobby) (e : Expired)
    → Balance lobby.queued_at lobby.queue e
    → IsAgreed lobby
    → IsAgreed (record lobby { queued_at = e.queued_at; queue = e.kept })
expired-IsAgreed lobby e b h = record { once = λ id. omega (arith, h.once id, b.even id) }

expire_queue-IsAgreed :
    (now : ℕ) (timeout : ℤ) (lobby : Lobby)
    → IsAgreed lobby
    → IsAgreed (expire_queue now timeout lobby).0
unfolding expire_queue
expire_queue-IsAgreed now timeout lobby h =
    if_keeps (λ (r : Lobby × List Str). IsAgreed r.0) (ltb_ℤ (pos 0) timeout) (_, _) (lobby, [])
      (expired-IsAgreed lobby _
        (expire-Balance now timeout lobby.queued_at lobby.queue (λ key. omega (arith, h.once key)))
        h)
      h

-- The pair is of two different players, who are neither in the queue nor waiting any more.
abbrev IsPair : Option (Str × Str) → Lobby → Type 0
IsPair none lobby = Unit
IsPair (some (a, b)) lobby =
    (str_eq a b ≡ false)
    × (count a lobby.queue ≡ 0)
    × (count b lobby.queue ≡ 0)
    × (lobby.queued_at a ≡ none)
    × (lobby.queued_at b ≡ none)

pub record Popped (out : Option (Str × Str) × Lobby) : Type 0 where
  pub agreed : IsAgreed out.1
  pub pair : IsPair out.0 out.1

two-Popped :
    (lobby : Lobby) (x y : Str) (rest : List Str)
    → ((id : Str) → count id (x ∷ y ∷ rest) ≡ one_if (is_some (lobby.queued_at id)))
    → Popped (
      some (x, y),
      record lobby { queued_at = put (put lobby.queued_at x none) y none; queue = rest },
    )
two-Popped lobby x y rest h = record {
  agreed = record {
    once = λ id. ground (
      arith,
      h id,
      h x,
      h y,
      str_eq_refl x,
      str_eq_refl y,
      str_eq_iff id x,
      str_eq_iff x id,
      str_eq_iff id y,
      str_eq_iff y id,
    );
  };
  pair = ground (arith, h x, h y, str_eq_refl x, str_eq_refl y, str_eq_iff x y, str_eq_iff y x);
}

take_pair_of :
    (lobby : Lobby) (q : List Str) → lobby.queue ≡ q → IsAgreed lobby → Popped (take_pair lobby)
unfolding take_pair
take_pair_of lobby [] e h = rw (e, take_pair) (record { agreed = h; pair = tt })
take_pair_of lobby (x ∷ []) e h = rw (e, take_pair) (record { agreed = h; pair = tt })
take_pair_of lobby (x ∷ y ∷ rest) e h =
    rw (e, take_pair) (two-Popped lobby x y rest (λ id. ap (count id) (sym e) ∙ h.once id))

-- Popping the next pair keeps the queue and the join times in agreement, however many players have
-- waited too long. A pair that is popped is of two different players, and neither is in the queue nor
-- has a join time any more.
pub pop_next_pair-Popped :
    (now : ℕ) (timeout : ℤ) (lobby : Lobby)
    → IsAgreed lobby
    → Popped ((pop_next_pair now timeout lobby).0, (pop_next_pair now timeout lobby).2)
unfolding pop_next_pair
pop_next_pair-Popped now timeout lobby h =
    take_pair_of (expire_queue now timeout lobby).0 _ refl
      (expire_queue-IsAgreed now timeout lobby h)
