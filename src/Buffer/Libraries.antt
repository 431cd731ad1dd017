-- ===== src/Buffer/Libraries.antt =====
-- The two libraries under internal/buffer/buffer.go: github.com/allegro/bigcache and
-- github.com/google/btree, and what is documented of them.
pub mod Lists
pub mod Room
pub mod Failures
use otel_tail_sampler.Base.{
  ◌≡◌, Bool, true, false, not, ◌&&◌, ◌||◌, Option, none, some, List, [], ◌∷◌, any, if◌then◌else◌,
}
use otel_tail_sampler.Base.Int.{ℤ, ltb_ℤ, eqb_ℤ}
use otel_tail_sampler.Base.Text.{GoString, eqb, less_str}

-- bigcache.RemoveReason
pub data RemoveReason : Type 0 where
  expired no_space deleted : RemoveReason

-- A call of OnRemoveWithReason.
pub record Removed (B : Type 0) : Type 0 where
  pub key : GoString
  pub entry : B
  pub reason : RemoveReason

-- What Set leaves, the callbacks that it made, and whether it returned no error.
pub record SetResult (S B : Type 0) : Type 0 where
  pub state : S
  pub removed : List (Removed B)
  pub ok : Bool

pub record Cache (B : Type 0) : Type 1 where
  pub State : Type 0
  pub get : State → GoString → Option B
  pub set : State → GoString → B → SetResult State B
  -- With the entry that was there, for which the callback is made.
  pub delete : State → GoString → State × Option B
  -- The periodic cleaning, with its callbacks.
  pub clean : State → State × List (Removed B)
  pub len : State → ℤ

abbrev pub is_removed : {B : Type 0} → GoString → List (Removed B) → Bool
is_removed k = any (λ r. eqb r.key k)

-- bigcache, as far as no two keys of a run share a 64-bit hash.
pub record IsCache {B : Type 0} (C : Cache B) : Type 0 where
  pub get-set_self :
      (s : C.State) (k : GoString) (b : B)
      → (C.set s k b).ok ≡ true
      → C.get (C.set s k b).state k ≡ some b
  pub get-set :
      (s : C.State) (k j : GoString) (b : B)
      → eqb k j ≡ false
      → C.get (C.set s k b).state j
        ≡ (if is_removed j (C.set s k b).removed then none else C.get s j)
  pub get-delete :
      (s : C.State) (k j : GoString)
      → C.get (C.delete s k).0 j ≡ (if eqb k j then none else C.get s j)
  pub deleted_entry : (s : C.State) (k : GoString) → (C.delete s k).1 ≡ C.get s k
  pub get-clean :
      (s : C.State) (j : GoString)
      → C.get (C.clean s).0 j ≡ (if is_removed j (C.clean s).1 then none else C.get s j)

-- TimeKey of internal/buffer/buffer.go
pub record TimeKey : Type 0 where
  pub timestamp : ℤ
  pub key : GoString

unfoldable pub less : TimeKey → TimeKey → Bool
less t other =
    if not (eqb_ℤ t.timestamp other.timestamp)
    then ltb_ℤ t.timestamp other.timestamp
    else less_str t.key other.key

abbrev pub same_key : TimeKey → TimeKey → Bool
same_key t other = eqb_ℤ t.timestamp other.timestamp && eqb t.key other.key

abbrev pub contains : TimeKey → List TimeKey → Bool
contains t = any (λ u. same_key u t)

pub record BTree : Type 1 where
  pub State : Type 0
  pub empty : State
  pub replace_or_insert : State → TimeKey → State
  pub delete : State → TimeKey → State
  -- The items from the first bound up to, and without, the second.
  pub ascend_range : State → TimeKey → TimeKey → List TimeKey

pub record IsBTree (T : BTree) : Type 0 where
  pub has : T.State → TimeKey → Bool
  pub has-empty : (x : TimeKey) → has T.empty x ≡ false
  pub has-insert :
      (s : T.State) (x y : TimeKey)
      → has (T.replace_or_insert s x) y ≡ (if same_key x y then true else has s y)
  pub has-delete :
      (s : T.State) (x y : TimeKey)
      → has (T.delete s x) y ≡ (if same_key x y then false else has s y)
  pub contains-ascend_range :
      (s : T.State) (lo hi x : TimeKey)
      → contains x (T.ascend_range s lo hi) ≡ (has s x && (not (less x lo) && less x hi))
