-- ===== src/Buffer/Locks.antt =====
-- The locks of internal/buffer/buffer.go: b.mu, which the range queries hold while they read the cache
-- and which the callback of the cache takes, and the lock inside the cache, which is bigcache's and a
-- parameter.
pub mod Deadlock
use otel_tail_sampler.Base.{
  ℕ, zero, suc, ◌-◌, ◌==◌, Bool, true, false, not, ◌||◌, Option, none, some, List, [], ◌∷◌, ◌++◌,
  if◌then◌else◌,
}

-- b.mu, and the lock of a shard of the cache.
pub data Lock : Type 0 where
  mutex shard : Lock

-- The four methods of sync.RWMutex.
pub data Action : Type 0 where
  read_lock read_unlock write_lock write_unlock : Lock → Action

pub record RwMutex : Type 0 where
  pub readers : ℕ
  pub is_written : Bool

pub record Locks : Type 0 where
  pub of_mutex : RwMutex
  pub of_shard : RwMutex

abbrev pub unlocked : Locks
unlocked = record {
  of_mutex = record { readers = 0; is_written = false };
  of_shard = record { readers = 0; is_written = false };
}

abbrev at_lock : Lock → Locks → RwMutex
at_lock mutex s = s.of_mutex
at_lock shard s = s.of_shard

abbrev put_lock : Lock → Locks → RwMutex → Locks
put_lock mutex s m = record s { of_mutex = m }
put_lock shard s m = record s { of_shard = m }

-- What an action makes of the locks; `none` where it has to wait.
unfoldable pub perform : Action → Locks → Option Locks
perform (read_lock l) s =
    let m = at_lock l s in
    if m.is_written then none else some (put_lock l s (record m { readers = suc m.readers }))
perform (read_unlock l) s =
    let m = at_lock l s in some (put_lock l s (record m { readers = m.readers - 1 }))
perform (write_lock l) s =
    let m = at_lock l s in
    if m.is_written || not (m.readers == 0)
    then none
    else some (put_lock l s (record m { is_written = true }))
perform (write_unlock l) s =
    let m = at_lock l s in some (put_lock l s (record m { is_written = false }))

-- The actions of Get, and those of Delete around those of its callback.
pub record CacheLocks : Type 0 where
  pub get : List Action
  pub delete : List Action → List Action

-- A shard that is locked during each operation, the callback included.
abbrev pub shard_locks : CacheLocks
shard_locks = record {
  get = read_lock shard ∷ read_unlock shard ∷ [];
  delete = λ callback. write_lock shard ∷ (callback ++ write_unlock shard ∷ []);
}

module _ (L : CacheLocks) where
  unfoldable pub gets : ℕ → List Action
  gets zero = []
  gets (suc n) = L.get ++ gets n

  -- GetMetricsInRange and GetLogsInRange, for a range with this many keys.
  unfoldable pub range_query_locks : ℕ → List Action
  unfolding gets
  range_query_locks n = read_lock mutex ∷ (gets n ++ read_unlock mutex ∷ [])

  -- A Delete of RemoveTrace, RemoveMetricsInRange and RemoveLogsInRange, of an entry that is there.
  unfoldable pub delete_locks : List Action
  delete_locks = L.delete (write_lock mutex ∷ write_unlock mutex ∷ [])
