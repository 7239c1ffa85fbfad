-- ===== src/Common/Answer.antt =====
-- A value or an error of the part that is called, for Go's `(T, error)`.
use mathlib.Core.Bool.{Bool, true, false}

pub data Answer (E A : Type 0) : Type 0 where
  failed : E → Answer E A
  done : A → Answer E A

-- `if err != nil { return ..., err }` between two calls.
infixl 5 ◌>>=◌
unfoldable pub ◌>>=◌ : {E A B : Type 0} → Answer E A → (A → Answer E B) → Answer E B
◌>>=◌ m next = elim m [ failed reason ↦ failed reason | done value ↦ next value ]

-- `fmt.Errorf("...: %w", err)`.
abbrev pub wrap : {E E' A : Type 0} → (E → E') → Answer E A → Answer E' A
wrap f (failed reason) = failed (f reason)
wrap f (done value) = done value

abbrev pub refuse_if : {E : Type 0} → Bool → E → Answer E Unit
refuse_if true reason = failed reason
refuse_if false reason = done tt

-- Whatever a result is, if it is one.
abbrev pub Yields : {E A : Type 0} → (A → Type 0) → Answer E A → Type 0
Yields P (failed reason) = Unit
Yields P (done x) = P x

pub >>=-Yields :
    {E A B : Type 0} (P : B → Type 0) (m : Answer E A) (next : A → Answer E B)
    → ((a : A) → Yields P (next a))
    → Yields P (m >>= next)
unfolding ◌>>=◌
>>=-Yields P (failed reason) next h = tt
>>=-Yields P (done a) next h = h a

pub weaken-Yields :
    {E A : Type 0} {P Q : A → Type 0} (h : (a : A) → P a → Q a) (m : Answer E A)
    → Yields P m
    → Yields Q m
weaken-Yields h (failed reason) y = tt
weaken-Yields h (done a) y = h a y
