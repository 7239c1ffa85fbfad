-- ===== src/Combat/Rounds.antt =====
-- The rule for invariants of a whole turn, over the rounds of its loop.
use terminal_wrestling_leagu.Common.{
  ℕ, Bool, true, false, ◌≡◌, subst, some, List, [], ◌∷◌, if◌then◌else◌, inl, inr, refl,
  Option-cases,
}
use terminal_wrestling_leagu.Combat.Types.{
  MatchState, TurnInput, TurnResult, RandomSource, Result, ok, err, ◌>>=◌,
}
use terminal_wrestling_leagu.Combat.Order.{canonicalize_inputs}
use terminal_wrestling_leagu.Combat.Turn.{
  Slot, Contexts, Progress, fighters_by_id, begin_turn, exchange, resolve_input, resolve_inputs,
  end_turn, turn_result, play_turn, resolve_turn,
}

-- A result satisfies `P`, if there is one.
abbrev pub Ensures {ℓ} : {A : Type 0} → (A → Type ℓ) → Result A → Type ℓ
Ensures P (ok a) = P a
Ensures P (err e) = Unit

pub Ensures-ok {ℓ} :
    {A : Type 0} (P : A → Type ℓ) {m : Result A} {a : A} → Ensures P m → m ≡ ok a → P a
Ensures-ok P h e = subst (Ensures P) e h

pub Ensures-bind {ℓ κ} :
    {A B : Type 0} (P : A → Type ℓ) (Q : B → Type κ) (m : Result A) (f : A → Result B)
    → Ensures P m
    → ((a : A) → P a → Ensures Q (f a))
    → Ensures Q (m >>= f)
Ensures-bind P Q (ok a) f h k = k a h
Ensures-bind P Q (err e) f h k = tt

-- `Ensures` with the value kept: what the result satisfies may depend on it.
pub Ensures-self : {A : Type 0} (m : Result A) → Ensures (λ a. m ≡ ok a) m
Ensures-self (ok a) = refl
Ensures-self (err e) = tt

pub Ensures-if {ℓ} :
    {A : Type 0} (P : A → Type ℓ) (b : Bool) (x y : Result A)
    → (b ≡ true → Ensures P x)
    → (b ≡ false → Ensures P y)
    → Ensures P (if b then x else y)
Ensures-if P true x y hx hy = hx refl
Ensures-if P false x y hx hy = hy refl

-- A chain that ends in a value has one in the middle.
pub >>=-ok :
    {T U : Type 0} (call : Result T) (next : T → Result U) {result : U}
    → (call >>= next) ≡ ok result
    → (value : T) × (call ≡ ok value) × (next value ≡ ok result)
>>=-ok (err reason) next chain = cc
>>=-ok (ok value) next chain = (value, refl, chain)

-- Every round that finds its fighter keeps `Q`.
abbrev pub RoundKeeps {ℓ} :
    {R : Type 0} → RandomSource R → Contexts → ℕ → (Progress R → Type ℓ) → Type ℓ
RoundKeeps {R = R} source ctxs prev_turn Q =
    (slot : Slot) (input : TurnInput) (p : Progress R)
    → p.next.outcome.finished ≡ false
    → fighters_by_id p.next input.player_id ≡ some slot
    → Q p
    → Q (exchange source ctxs prev_turn slot input p)

module _ {ℓ} {R : Type 0} (source : RandomSource R) (ctxs : Contexts) (prev_turn : ℕ)
    (Q : Progress R → Type ℓ) (keep : RoundKeeps source ctxs prev_turn Q) where
  resolve_input_keeps :
      (x : TurnInput) (p : Progress R) → Q p → Ensures Q (resolve_input source ctxs prev_turn x p)
  unfolding resolve_input
  resolve_input_keeps x p h =
      Ensures-if Q p.next.outcome.finished _ _ (λ _. h)
        λ playing. elim (Option-cases (fighters_by_id p.next x.player_id)) [
          | inl e ↦ rw e tt
          | inr (slot, e) ↦ rw e (keep slot x p playing e h)
        ]

  pub resolve_inputs_keeps :
      (xs : List TurnInput) (p : Progress R)
      → Q p
      → Ensures Q (resolve_inputs source ctxs prev_turn xs p)
  unfolding resolve_inputs
  resolve_inputs_keeps [] p h = h
  resolve_inputs_keeps (x ∷ xs) p h =
      Ensures-bind Q Q (resolve_input source ctxs prev_turn x p) _ (resolve_input_keeps x p h)
        (resolve_inputs_keeps xs)

-- The whole turn: `Q` holds when the loop begins, every round keeps it, and what the end of the
-- turn makes of it satisfies `P`.
module _ {ℓ κ} {R : Type 0} (source : RandomSource R) (Q : Contexts → Progress R → Type ℓ)
    (P : TurnResult × R → Type κ) (state : MatchState) (inputs : List TurnInput) (rng : R) where
  pub resolve_turn_keeps :
      (state.outcome.finished ≡ false
        → (xs : List TurnInput) → canonicalize_inputs state inputs ≡ ok xs
        → Q (begin_turn state xs rng).0 (begin_turn state xs rng).1)
      → ((ctxs : Contexts) → RoundKeeps source ctxs state.turn (Q ctxs))
      → ((ctxs : Contexts) (p : Progress R)
          → Q ctxs p
          → P (turn_result source (end_turn source ctxs p)))
      → Ensures P (resolve_turn source state inputs rng)
  unfolding resolve_turn play_turn
  resolve_turn_keeps start keep finish =
      Ensures-if P state.outcome.finished _ _ (λ _. tt)
        λ playing.
          Ensures-bind (λ xs. canonicalize_inputs state inputs ≡ ok xs) P _ _
            (Ensures-self (canonicalize_inputs state inputs))
            λ xs e.
              Ensures-bind (Q (begin_turn state xs rng).0) P _ _
                (resolve_inputs_keeps source _ state.turn (Q (begin_turn state xs rng).0) (keep _)
                  xs _ (start playing xs e))
                (λ p h. finish _ p h)
