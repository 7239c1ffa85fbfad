-- ===== src/Storage/Tx/Runs.antt =====
-- internal/storage: how a transaction runs when the driver answers.
use terminal_wrestling_leagu.Common.{◌≡◌, refl, false, Option, none, some}
use terminal_wrestling_leagu.Common.Answer.{Answer, done, failed}
use terminal_wrestling_leagu.Storage.{Tables, StorageError}
use terminal_wrestling_leagu.Storage.Tx.{
  exec_or, and_then, Call, Driver, Work, Tx, called, pure, query, known, ◌>>=◌, on_pool,
}

module _ {F : Type 0} where
  -- One run after another.
  pub >>=-runs :
      {A B : Type 0} (m : Tx F A) (next : A → Tx F B) (d : Driver) {w w' : Work F} {a : A}
      {r : Answer StorageError (B × Work F)}
      → m d w ≡ done (a, w')
      → next a d w' ≡ r
      → (m >>= next) d w ≡ r
  unfolding ◌>>=◌
  >>=-runs m next d {w} {r} e e' = rw (e, ◌>>=◌) e'

  pub pure-runs : {A : Type 0} (a : A) (d : Driver) (w : Work F) → pure a d w ≡ done (a, w)
  unfolding pure
  pure-runs a d w = refl

  pub query-runs :
      {A : Type 0} (e : StorageError) (read : Tables F → A) (d : Driver) (w : Work F)
      → d.fails w.calls ≡ false
      → query e read d w ≡ done (read w.tables, called w.tables w)
  unfolding query
  query-runs e read d w h = rw h refl

  pub known-runs : {A : Type 0} (a : A) (d : Driver) (w : Work F) → known (done a) d w ≡ done (a, w)
  unfolding known
  known-runs a d w = refl

  pub exec-runs :
      (broken e : StorageError) (change : Tables F → Option (Tables F)) (d : Driver) (w : Work F)
      (t : Tables F)
      → d.fails w.calls ≡ false
      → change w.tables ≡ some t
      → exec_or broken e change d w ≡ done (tt, called t w)
  unfolding exec_or
  exec-runs broken e change d w t h h' = simp h (rw h' refl)

  pub exec-breaks :
      (broken e : StorageError) (change : Tables F → Option (Tables F)) (d : Driver) (w : Work F)
      → d.fails w.calls ≡ false
      → change w.tables ≡ none
      → exec_or broken e change d w ≡ failed broken
  unfolding exec_or
  exec-breaks broken e change d w h h' = simp h (rw h' refl)

  -- An error ends the rest.
  pub >>=-breaks :
      {A B : Type 0} (m : Tx F A) (next : A → Tx F B) (d : Driver) {w : Work F} {e : StorageError}
      → m d w ≡ failed e
      → (m >>= next) d w ≡ failed e
  unfolding ◌>>=◌
  >>=-breaks m next d h = rw (h, ◌>>=◌) refl

  pub on_pool-done :
      {A : Type 0} (m : Tx F A) (d : Driver) {w w' : Work F} {a : A}
      → m d w ≡ done (a, w')
      → on_pool m d w ≡ (done a, w')
  unfolding on_pool
  on_pool-done m d e = rw (e, on_pool) refl

  pub on_pool-failed :
      {A : Type 0} (m : Tx F A) (d : Driver) {w : Work F} {e : StorageError}
      → m d w ≡ failed e
      → on_pool m d w ≡ (failed e, w)
  unfolding on_pool
  on_pool-failed m d e = rw (e, on_pool) refl

  pub and_then-runs :
      {A B : Type 0} (m : Call F A) (next : A → Call F B) (d : Driver) {w w' : Work F} {a : A}
      {r : Answer StorageError B × Work F}
      → m d w ≡ (done a, w')
      → next a d w' ≡ r
      → and_then m next d w ≡ r
  unfolding and_then
  and_then-runs m next d {w} {w'} {a} {r} e e' = rw (e, and_then) e'

  pub on_pool-runs :
      {A : Type 0} (m : Tx F A) (d : Driver) {w w' : Work F} {a : A}
      → m d w ≡ done (a, w')
      → (on_pool m d w).0 ≡ done a
  unfolding on_pool
  on_pool-runs m d e = rw (e, on_pool) refl
