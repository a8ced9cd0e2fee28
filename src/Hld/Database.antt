-- ===== src/Hld/Database.antt =====
-- The height-limited database as a database of tm-db's interface, over the state of the session and
-- its heights. An iterator is given as the list of what a client's loop over it sees.
use mantlemint.Prelude.{
  suc, pos, eq_ℤ, Option, some, List, Result, Exec, bind, length, if◌then◌else◌,
}
use mantlemint.Bytes.{Bytes}
use mantlemint.Tmdb.{TmDb}
use mantlemint.Tmdb.Session.{Session}
use mantlemint.Heleveldb.Keys.{Mode}
use mantlemint.Heleveldb.Batch
use mantlemint.Heleveldb.Batch.{LevelBatch, write, rollback_batch}
use mantlemint.Heleveldb.Driver.{current_iterator, current_reverse_iterator}
use mantlemint.Heleveldb.Iterator.{Iterator, new_iterator, new_reverse_iterator, walk}
use mantlemint.Hld
use mantlemint.Hld.{Hld}

module _ (x : Session) (mode : Mode) where
  unfoldable pub seen : x.State → Result Iterator → Result (List (Bytes × Bytes))
  seen s i = bind i λ it. walk x mode (suc (length it.ahead)) s it

  -- Driver.Iterator and Driver.ReverseIterator, at the read height
  unfoldable pub iterator :
      x.State → Hld → Option Bytes → Option Bytes → Result (List (Bytes × Bytes))
  unfolding seen
  iterator s h start end =
      if eq_ℤ h.read_height (pos 0)
      then current_iterator x mode s start end
      else seen s (new_iterator x mode s h.read_height start end)

  unfoldable pub reverse_iterator :
      x.State → Hld → Option Bytes → Option Bytes → Result (List (Bytes × Bytes))
  unfolding seen
  reverse_iterator s h start end =
      if eq_ℤ h.read_height (pos 0)
      then current_reverse_iterator x mode s start end
      else seen s (new_reverse_iterator x mode s h.read_height start end)

  -- an action on the session, which leaves the heights
  unfoldable pub on_session : Exec x.State Unit → Exec (x.State × Hld) Unit
  on_session op (s, h) = let (r, s') = op s in (r, (s', h))

  unfoldable pub set_here : Bytes → Bytes → Exec (x.State × Hld) Unit
  unfolding on_session
  set_here key value (s, h) = on_session (Hld.set x mode h key value) (s, h)

  unfoldable pub delete_here : Bytes → Exec (x.State × Hld) Unit
  unfolding on_session
  delete_here key (s, h) = on_session (Hld.delete x mode h key) (s, h)

  -- `*HeightLimitedDB` as a `tmdb.DB`; its batches are `LevelBatch`, which have a rollback batch
  abbrev pub hld_database : TmDb
  hld_database = record {
    State = x.State × Hld;
    Batch = LevelBatch x;
    Rollback = x.Batch;
    get = λ s. Hld.get x mode s.0 s.1;
    has = λ s. Hld.has x mode s.0 s.1;
    set = set_here;
    delete = delete_here;
    iterator = λ s. iterator s.0 s.1;
    reverse_iterator = λ s. reverse_iterator s.0 s.1;
    new_batch = λ s. Hld.new_batch x mode s.0 s.1;
    batch_set = λ s. Batch.set x s.0;
    batch_delete = λ s. Batch.delete x s.0;
    batch_write = λ b. on_session (write x b);
    rollback_batch = λ b. some (rollback_batch x b);
    rollback_write = λ b. on_session (x.batch_write b);
  }
