-- ===== src/Storage/Tx.antt =====
-- How internal/storage calls the database: statements, transactions and methods. The driver
-- (pgx) and the generator of identifiers are parameters: `fails n` says that the n-th call of the
-- driver returns an error, `new_id n` is what `uuid.NewString` returns just before it, and `now` is
-- what `nowFn` returns. An error while rows are read is the error of their query. Nobody else writes during a transaction, a commit that returns an error has
-- not happened, and the pool is never nil.
pub mod Hoare
pub mod Keeps
pub mod Runs
use terminal_wrestling_leagu.Common.{
  ℕ, ◌+◌, ◌≡◌, refl, Bool, true, false, Option, none, some, if◌then◌else◌, if_keeps,
}
use terminal_wrestling_leagu.Common.Answer.{Answer, failed, done, Yields, weaken-Yields}
use terminal_wrestling_leagu.Common.Text.{Str}
use terminal_wrestling_leagu.Storage.{Tables, StorageError, begin_failed, commit_failed, Time}

pub record Driver : Type 0 where
  pub fails : ℕ → Bool
  pub new_id : ℕ → Str
  pub now : ℕ → Time

pub record Work (F : Type 0) : Type 0 where
  pub tables : Tables F
  pub calls : ℕ

-- What runs inside a transaction: an error leaves nothing behind.
abbrev pub Tx : Type 0 → Type 0 → Type 0
Tx F A = Driver → Work F → Answer StorageError (A × Work F)

-- What a method does: what was written stays written after an error.
abbrev pub Call : Type 0 → Type 0 → Type 0
Call F A = Driver → Work F → Answer StorageError A × Work F

abbrev pub called : {F : Type 0} → Tables F → Work F → Work F
called t w = record { tables = t; calls = w.calls + 1 }

module _ {F A : Type 0} where
  unfoldable pub pure : A → Tx F A
  pure a d w = done (a, w)

  unfoldable pub raise : StorageError → Tx F A
  raise reason d w = failed reason

  -- A statement that reads.
  unfoldable pub query : StorageError → (Tables F → A) → Tx F A
  query reason read d w =
      if d.fails w.calls then failed reason else done (read w.tables, called w.tables w)

  -- An answer that needs no statement.
  unfoldable pub known : Answer StorageError A → Tx F A
  known (failed reason) d w = failed reason
  known (done a) d w = done (a, w)

-- A statement that writes; `none` is a constraint that the new rows break, which has its own error.
unfoldable pub exec_or :
    {F : Type 0} → StorageError → StorageError → (Tables F → Option (Tables F)) → Tx F Unit
exec_or broken reason change d w =
    let written : Answer StorageError (Unit × Work _) = elim (change w.tables) [
      | none ↦ failed broken
      | some t ↦ done (tt, called t w)
    ] in
    if d.fails w.calls then failed reason else written

abbrev pub exec : {F : Type 0} → StorageError → (Tables F → Option (Tables F)) → Tx F Unit
exec reason = exec_or reason reason

-- Tables that are written unless a constraint is broken.
unfoldable pub unless : {F : Type 0} → Bool → Tables F → Option (Tables F)
unless broken t = if broken then none else some t

unfoldable pub fresh_id : {F : Type 0} → Tx F Str
fresh_id d w = done (d.new_id w.calls, w)

unfoldable pub now_fn : {F : Type 0} → Tx F Time
now_fn d w = done (d.now w.calls, w)

infixl 5 ◌>>=◌
unfoldable pub ◌>>=◌ : {F A B : Type 0} → Tx F A → (A → Tx F B) → Tx F B
◌>>=◌ m next d w = elim (m d w) [ failed reason ↦ failed reason | done (a, w') ↦ next a d w' ]

module _ {F A : Type 0} where
  -- `Begin`, the statements, and `Commit`; every return before it rolls back.
  unfoldable pub transact : Tx F A → Call F A
  transact tx d w =
      let opened : Answer StorageError A × Work F = elim (tx d (called w.tables w)) [
        | failed reason ↦ (failed reason, w)
        | done (a, w') ↦
            if d.fails w'.calls then (failed commit_failed, w) else (done a, called w'.tables w')
      ] in
      if d.fails w.calls then (failed begin_failed, w) else opened

  -- Statements that the pool runs one by one, of which at most the last one writes.
  unfoldable pub on_pool : Tx F A → Call F A
  on_pool tx d w = elim (tx d w) [
    | failed reason ↦ (failed reason, w)
    | done (a, w') ↦ (done a, w')
  ]

-- A method that refuses some arguments before it calls the driver.
unfoldable pub guarded : {F A : Type 0} → Bool → StorageError → Call F A → Call F A
guarded refused reason m d w = if refused then (failed reason, w) else m d w

-- A method that asks for an identifier or the time before it calls the driver.
unfoldable pub with_driver : {F A : Type 0} → (Driver → Work F → Call F A) → Call F A
with_driver m d w = m d w d w

-- One call after another, the first of which may have written whatever the second returns.
abbrev pub proceed :
    {F A B : Type 0}
    → (A → Call F B)
    → Driver
    → Answer StorageError A × Work F
    → Answer StorageError B × Work F
proceed next d (failed reason, w) = (failed reason, w)
proceed next d (done a, w) = next a d w

unfoldable pub and_then : {F A B : Type 0} → Call F A → (A → Call F B) → Call F B
and_then m next d w = proceed next d (m d w)
