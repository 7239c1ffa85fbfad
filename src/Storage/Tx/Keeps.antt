-- ===== src/Storage/Tx/Keeps.antt =====
-- internal/storage: what a method keeps and what it leaves.
use terminal_wrestling_leagu.Common.{Bool, if◌then◌else◌, if_keeps}
use terminal_wrestling_leagu.Common.Answer.{Answer, failed, done, Yields}
use terminal_wrestling_leagu.Storage.{Tables, StorageError, commit_failed}
use terminal_wrestling_leagu.Storage.Tx.{
  Driver, Work, Tx, Call, called, transact, on_pool, guarded, with_driver, proceed, and_then,
}
use terminal_wrestling_leagu.Storage.Tx.Hoare.{Hoare}

-- A method that keeps a property of the tables, whatever happens.
pub record Keeps {F A : Type 0} (P : Tables F → Type 0) (m : Call F A) : Type 0 where
  pub kept : (d : Driver) (w : Work F) → P w.tables → P ((m d w).1.tables)

module _ {F : Type 0} where
  -- A transaction that keeps a property of the tables keeps it whatever happens.
  settled :
      {A : Type 0} (P : Tables F → Type 0) (d : Driver) (w : Work F)
      (r : Answer StorageError (A × Work F))
      → P w.tables
      → Yields (λ x. P x.1.tables) r
      → P (
          (elim r as (λ _. Answer StorageError A × Work F) [
            | failed reason ↦ (failed reason, w)
            | done (a, w') ↦
                if d.fails w'.calls
                then (failed commit_failed, w)
                else (done a, called w'.tables w')
          ]).1.tables)
  settled {A} P d w (failed reason) p h = p
  settled {A} P d w (done (a, w')) p h =
      if_keeps {A = Answer StorageError A × Work F} (λ r. P r.1.tables) (d.fails w'.calls) _ _ p h

  pooled :
      {A : Type 0} (P : Tables F → Type 0) (w : Work F) (r : Answer StorageError (A × Work F))
      → P w.tables
      → Yields (λ x. P x.1.tables) r
      → P (
          (elim r as (λ _. Answer StorageError A × Work F) [
            | failed reason ↦ (failed reason, w)
            | done (a, w') ↦ (done a, w')
          ]).1.tables)
  pooled P w (failed reason) p h = p
  pooled P w (done (a, w')) p h = h

  pub on_pool-Keeps :
      {A : Type 0} {P : Tables F → Type 0} {m : Tx F A} → Hoare P m (λ _. P) → Keeps P (on_pool m)
  unfolding on_pool
  on_pool-Keeps {P} {m} h = record { kept = λ d w p. pooled P w (m d w) p (h.ends d w p) }

  pub guarded-Keeps :
      {A : Type 0} {P : Tables F → Type 0} {m : Call F A} (refused : Bool) (e : StorageError)
      → Keeps P m
      → Keeps P (guarded refused e m)
  unfolding guarded
  guarded-Keeps {A} {P} {m} refused e h = record {
    kept = λ d w p.
        if_keeps {A = Answer StorageError A × Work F} (λ r. P r.1.tables) refused (failed e, w)
          (m d w) p (h.kept d w p);
  }

  pub with_driver-Keeps :
      {A : Type 0} {P : Tables F → Type 0} {m : Driver → Work F → Call F A}
      → ((d : Driver) (w : Work F) → Keeps P (m d w))
      → Keeps P (with_driver m)
  unfolding with_driver
  with_driver-Keeps h = record { kept = λ d w p. (h d w).kept d w p }

  proceed_kept :
      {A B : Type 0} (P : Tables F → Type 0) (next : A → Call F B) (d : Driver)
      (r : Answer StorageError A × Work F)
      → ((a : A) → Keeps P (next a))
      → P (r.1.tables)
      → P ((proceed next d r).1.tables)
  proceed_kept P next d (failed reason, w) hn p = p
  proceed_kept P next d (done a, w) hn p = (hn a).kept d w p

  pub and_then-Keeps :
      {A B : Type 0} {P : Tables F → Type 0} {m : Call F A} {next : A → Call F B}
      → Keeps P m
      → ((a : A) → Keeps P (next a))
      → Keeps P (and_then m next)
  unfolding and_then
  and_then-Keeps {P} {m} {next} hm hn = record {
    kept = λ d w p. proceed_kept P next d (m d w) hn (hm.kept d w p);
  }

  pub transact-Keeps :
      {A : Type 0} {P : Tables F → Type 0} {tx : Tx F A}
      → Hoare P tx (λ _. P)
      → Keeps P (transact tx)
  unfolding transact
  transact-Keeps {A} {P} {tx} h = record {
    kept = λ d w p.
        if_keeps {A = Answer StorageError A × Work F} (λ r. P r.1.tables) (d.fails w.calls) _ _ p
          (settled P d w (tx d (called w.tables w)) p (h.ends d (called w.tables w) p));
  }

  closed :
      {A : Type 0} (Q : A → Tables F → Type 0) (d : Driver) (w : Work F)
      (r : Answer StorageError (A × Work F))
      → Yields (λ x. Q x.0 x.1.tables) r
      → Yields
          (λ a. Q a (
            (elim r as (λ _. Answer StorageError A × Work F) [
              | failed reason ↦ (failed reason, w)
              | done (a, w') ↦
                  if d.fails w'.calls
                  then (failed commit_failed, w)
                  else (done a, called w'.tables w')
            ]).1.tables))
          ((elim r as (λ _. Answer StorageError A × Work F) [
            | failed reason ↦ (failed reason, w)
            | done (a, w') ↦
                if d.fails w'.calls
                then (failed commit_failed, w)
                else (done a, called w'.tables w')
          ]).0)
  closed Q d w (failed reason) h = tt
  closed {A} Q d w (done (a, w')) h =
      if_keeps {A = Answer StorageError A × Work F} (λ r. Yields (λ a. Q a r.1.tables) r.0)
        (d.fails w'.calls) _ _ tt h

  -- What a transaction that has ended well leaves.
  pub transact-Yields :
      {A : Type 0} {P : Tables F → Type 0} (Q : A → Tables F → Type 0) {tx : Tx F A}
      → Hoare P tx Q
      → (d : Driver) (w : Work F) → P w.tables
      → Yields (λ a. Q a ((transact tx d w).1.tables)) ((transact tx d w).0)
  unfolding transact
  transact-Yields {A} Q {tx} h d w p =
      if_keeps {A = Answer StorageError A × Work F} (λ r. Yields (λ a. Q a r.1.tables) r.0)
        (d.fails w.calls) _ _ tt
        (closed Q d w (tx d (called w.tables w)) (h.ends d (called w.tables w) p))
