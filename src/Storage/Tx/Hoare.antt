-- ===== src/Storage/Tx/Hoare.antt =====
-- internal/storage: what a transaction leaves, by the rules of Hoare.
use terminal_wrestling_leagu.Common.{Bool, true, false, Option, none, some, if_keeps}
use terminal_wrestling_leagu.Common.Answer.{Answer, failed, done, Yields, weaken-Yields}
use terminal_wrestling_leagu.Storage.{Tables, StorageError}
use terminal_wrestling_leagu.Storage.Tx.{
  Driver, Work, Tx, called, pure, raise, query, known, exec_or, exec, unless, fresh_id, now_fn,
  ◌>>=◌,
}

-- From tables that satisfy `P`, an end without an error leaves a result and tables that satisfy `Q`.
pub record Hoare {F A : Type 0} (P : Tables F → Type 0) (m : Tx F A) (Q : A → Tables F → Type 0)
    : Type 0 where
  pub ends : (d : Driver) (w : Work F) → P w.tables → Yields (λ r. Q r.0 r.1.tables) (m d w)

-- What a statement that succeeds leaves.
abbrev pub Writes : {F : Type 0} → (Tables F → Type 0) → Option (Tables F) → Type 0
Writes Q none = Unit
Writes Q (some t) = Q t

pub unless-Writes :
    {F : Type 0} (Q : Tables F → Type 0) (broken : Bool) (t : Tables F)
    → Q t
    → Writes Q (unless broken t)
unfolding unless
unless-Writes Q true t h = tt
unless-Writes Q false t h = h

module _ {F : Type 0} where
  pub pure-Hoare :
      {A : Type 0} {P : Tables F → Type 0} {Q : A → Tables F → Type 0} (a : A)
      → ((t : Tables F) → P t → Q a t)
      → Hoare P (pure a) Q
  unfolding pure
  pure-Hoare a h = record { ends = λ d w p. h w.tables p }

  pub raise-Hoare :
      {A : Type 0} {P : Tables F → Type 0} {Q : A → Tables F → Type 0} (e : StorageError)
      → Hoare P (raise e) Q
  unfolding raise
  raise-Hoare e = record { ends = λ d w p. tt }

  pub fresh_id-Hoare : {P : Tables F → Type 0} → Hoare P fresh_id (λ _. P)
  unfolding fresh_id
  fresh_id-Hoare = record { ends = λ d w p. p }

  pub now_fn-Hoare : {P : Tables F → Type 0} → Hoare P now_fn (λ _. P)
  unfolding now_fn
  now_fn-Hoare = record { ends = λ d w p. p }

  known_ends :
      {A : Type 0} (Q : A → Tables F → Type 0) (a : Answer StorageError A) (d : Driver) (w : Work F)
      → Yields (λ x. Q x w.tables) a
      → Yields (λ r. Q r.0 r.1.tables) (known a d w)
  unfolding known
  known_ends Q (failed reason) d w h = tt
  known_ends Q (done x) d w h = h

  pub known-Hoare :
      {A : Type 0} {P : Tables F → Type 0} {Q : A → Tables F → Type 0} (a : Answer StorageError A)
      → ((t : Tables F) → P t → Yields (λ x. Q x t) a)
      → Hoare P (known a) Q
  known-Hoare {A} {P} {Q} a h = record { ends = λ d w p. known_ends Q a d w (h w.tables p) }

  pub query-Hoare :
      {A : Type 0} {P : Tables F → Type 0} {Q : A → Tables F → Type 0} (e : StorageError)
      (read : Tables F → A)
      → ((t : Tables F) → P t → Q (read t) t)
      → Hoare P (query e read) Q
  unfolding query
  query-Hoare {A} {P} {Q} e read h = record {
    ends = λ d w p. if_keeps (Yields λ r. Q r.0 r.1.tables) (d.fails w.calls) _ _ tt (h w.tables p);
  }

  written_ends :
      (Q : Tables F → Type 0) (e : StorageError) (w : Work F) (o : Option (Tables F))
      → Writes Q o
      → Yields
          (λ r. Q r.1.tables)
          (elim o as (λ _. Answer StorageError (Unit × Work F)) [
            | none ↦ failed e
            | some t ↦ done (tt, called t w)
          ])
  written_ends Q e w none h = tt
  written_ends Q e w (some t) h = h

  pub exec_or-Hoare :
      {P Q : Tables F → Type 0} (broken e : StorageError) (change : Tables F → Option (Tables F))
      → ((t : Tables F) → P t → Writes Q (change t))
      → Hoare P (exec_or broken e change) (λ _. Q)
  unfolding exec_or
  exec_or-Hoare {P} {Q} broken e change h = record {
    ends = λ d w p.
        if_keeps (Yields λ r. Q r.1.tables) (d.fails w.calls) _ _ tt
          (written_ends Q broken w (change w.tables) (h w.tables p));
  }

  pub exec-Hoare :
      {P Q : Tables F → Type 0} (e : StorageError) (change : Tables F → Option (Tables F))
      → ((t : Tables F) → P t → Writes Q (change t))
      → Hoare P (exec e change) (λ _. Q)
  exec-Hoare e change h = exec_or-Hoare e e change h

  bind_ends :
      {A B : Type 0} (Q : A → Tables F → Type 0) (R : B → Tables F → Type 0)
      (r : Answer StorageError (A × Work F)) (next : A → Tx F B) (d : Driver)
      → Yields (λ x. Q x.0 x.1.tables) r
      → ((a : A) → Hoare (Q a) (next a) R)
      → Yields
          (λ x. R x.0 x.1.tables)
          (elim r as (λ _. Answer StorageError (B × Work F)) [
            | failed reason ↦ failed reason
            | done (a, w') ↦ next a d w'
          ])
  bind_ends Q R (failed reason) next d h hk = tt
  bind_ends Q R (done (a, w')) next d h hk = (hk a).ends d w' h

  pub >>=-Hoare :
      {A B : Type 0} {P : Tables F → Type 0} (Q : A → Tables F → Type 0) {R : B → Tables F → Type 0}
      {m : Tx F A} {next : A → Tx F B}
      → Hoare P m Q
      → ((a : A) → Hoare (Q a) (next a) R)
      → Hoare P (m >>= next) R
  unfolding ◌>>=◌
  >>=-Hoare Q {R} {m} {next} hm hk = record {
    ends = λ d w p. bind_ends Q R (m d w) next d (hm.ends d w p) hk;
  }

  pub weaken-Hoare :
      {A : Type 0} {P P' : Tables F → Type 0} {Q Q' : A → Tables F → Type 0} {m : Tx F A}
      → ((t : Tables F) → P t → P' t)
      → ((a : A) (t : Tables F) → Q' a t → Q a t)
      → Hoare P' m Q'
      → Hoare P m Q
  weaken-Hoare {A} {Q} {Q'} {m} hp hq h = record {
    ends = λ d w p. weaken-Yields (λ r q. hq r.0 r.1.tables q) (m d w) (h.ends d w (hp w.tables p));
  }

  -- What holds of no table is a hypothesis.
  pub given-Hoare :
      {A C : Type 0} {P : Tables F → Type 0} {Q : A → Tables F → Type 0} {m : Tx F A}
      → (C → Hoare P m Q)
      → Hoare (λ t. C × P t) m Q
  given-Hoare h = record { ends = λ d w (c, p). (h c).ends d w p }

  -- What holds of some value is a hypothesis on it.
  pub some-Hoare :
      {A X : Type 0} {P : X → Tables F → Type 0} {Q : A → Tables F → Type 0} {m : Tx F A}
      → ((x : X) → Hoare (P x) m Q)
      → Hoare (λ t. (x : X) × P x t) m Q
  some-Hoare h = record { ends = λ d w (x, p). (h x).ends d w p }

  -- A write after which a value is returned.
  pub exec-pure-Hoare :
      {A : Type 0} (a : A) {P : Tables F → Type 0} {Q : A → Tables F → Type 0} (e : StorageError)
      (change : Tables F → Option (Tables F))
      → ((t : Tables F) → P t → Writes (Q a) (change t))
      → Hoare P (exec e change >>= λ _. pure a) Q
  exec-pure-Hoare a {P} {Q} e change h =
      >>=-Hoare (λ _. Q a) (exec-Hoare e change h) λ _. pure-Hoare a λ t q. q
