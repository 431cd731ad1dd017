-- ===== src/Buffer/Locks/Deadlock.antt =====
-- Two goroutines that use the locks of internal/buffer/buffer.go.
use mathlib.Core.Path.{subst}
use otel_tail_sampler.Base.{◌≡◌, refl, sym, ℕ, suc, none, some, List, ◌∷◌}
use otel_tail_sampler.Buffer.Locks.{
  Action, Locks, unlocked, perform, CacheLocks, shard_locks, gets, range_query_locks, delete_locks,
}

-- What each of two goroutines still does, and the locks.
pub record Threads : Type 0 where
  pub first : List Action
  pub second : List Action
  pub locks : Locks

pub data Step : Threads → Threads → Type 0 where
  first_runs :
      {a : Action} {p q : List Action} {s s' : Locks}
      → perform a s ≡ some s'
      → Step
          (record { first = a ∷ p; second = q; locks = s })
          (record { first = p; second = q; locks = s' })
  second_runs :
      {a : Action} {p q : List Action} {s s' : Locks}
      → perform a s ≡ some s'
      → Step
          (record { first = p; second = a ∷ q; locks = s })
          (record { first = p; second = q; locks = s' })

pub data Steps (t : Threads) : Threads → Type 0 where
  here : Steps t t
  then_step : {u v : Threads} → Steps t u → Step u v → Steps t v

-- Each goroutine has something left to do and has to wait.
pub data IsDeadlock : Threads → Type 0 where
  both_wait :
      {a b : Action} {p q : List Action} {s : Locks}
      → perform a s ≡ none
      → perform b s ≡ none
      → IsDeadlock (record { first = a ∷ p; second = b ∷ q; locks = s })

-- A deadlock never ends.
IsDeadlock-stuck : (t : Threads) → IsDeadlock t → (u : Threads) → Step t u → ⊥
IsDeadlock-stuck _ (both_wait h k) _ (first_runs e) = cc
IsDeadlock-stuck _ (both_wait h k) _ (second_runs e) = cc

-- The threads of a range query and of a Delete.
abbrev pub query_and_delete : CacheLocks → ℕ → Threads
query_and_delete L n = record {
  first = range_query_locks L n;
  second = delete_locks L;
  locks = unlocked;
}

-- If the cache makes the callback of Delete while the shard is locked, a range query over at least one
-- key and a Delete in the same shard can come to a deadlock: the query has b.mu and waits for the shard,
-- the callback waits for b.mu, and no step leads on.
pub query_and_delete-IsDeadlock :
    (L : CacheLocks)
    → L ≡ shard_locks
    → (n : ℕ)
    → (t : Threads) × Steps (query_and_delete L (suc n)) t
      × IsDeadlock t
      × ((u : Threads) → Step t u → ⊥)
unfolding perform gets range_query_locks delete_locks
query_and_delete-IsDeadlock L e n =
    subst
      (λ M.
        (t : Threads) × Steps (query_and_delete M (suc n)) t
        × IsDeadlock t
        × ((u : Threads) → Step t u → ⊥))
      (sym e)
      (
        _,
        then_step (then_step here (first_runs refl)) (second_runs refl),
        both_wait refl refl,
        IsDeadlock-stuck _ (both_wait refl refl),
      )
