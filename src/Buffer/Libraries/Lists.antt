-- ===== src/Buffer/Libraries/Lists.antt =====
-- A cache and a tree on lists, with the documented behaviour: the cache takes what fits in `capacity`
-- entries and then evicts the oldest one.
use otel_tail_sampler.Base.{
  ◌≡◌, refl, ap, ◌∙◌, ℕ, Bool, true, false, not, ◌&&◌, ◌||◌, none, some, List, [], ◌∷◌, any, length,
  ltb, Bool-cases, inl, inr, arith, if◌then◌else◌,
}
use otel_tail_sampler.Base.Int.{pos}
use otel_tail_sampler.Base.Text.{GoString, eqb, eqb_iff, eqb_refl}
use otel_tail_sampler.GoMap.{GoMap, lookup, insert, erase, lookup-insert, lookup-erase}
use otel_tail_sampler.Buffer.Libraries.{
  SetResult, Cache, IsCache, TimeKey, less, same_key, contains, BTree, IsBTree, no_space,
}

pub same_key→≡ : (x y : TimeKey) → same_key x y ≡ true → x ≡ y
same_key→≡ x y h =
    let same_time : x.timestamp ≡ y.timestamp = ground arith in
    let same_text : x.key ≡ y.key = (eqb_iff x.key y.key).0 (ground arith) in
    λ i. record { timestamp = same_time i; key = same_text i }

abbrev pub filter : (TimeKey → Bool) → List TimeKey → List TimeKey
filter p [] = []
filter p (x ∷ xs) = let rest = filter p xs in if p x then x ∷ rest else rest

contains-filter :
    (p : TimeKey → Bool) (x : TimeKey) (l : List TimeKey)
    → contains x (filter p l) ≡ (contains x l && p x)
contains-filter p x [] = refl
contains-filter p x (u ∷ l) =
    let alike : same_key u x ≡ true → p u ≡ p x = λ same. ap p (same_key→≡ u x same) in
    combine (same_key u x) (p u) (p x) (contains x l) (filter p l) alike (contains-filter p x l)
      refl
  where
    combine :
        (same pu px rest : Bool) (l' : List TimeKey)
        → (same ≡ true → pu ≡ px)
        → contains x l' ≡ (rest && px)
        → same ≡ same_key u x
        → contains x (if pu then u ∷ l' else l') ≡ ((same || rest) && px)
    combine same true px rest l' alike ih e = ground (arith, ih)
    combine same false px rest l' alike ih e = ground (arith, ih)

or_if : (a b : Bool) → (a || b) ≡ (if a then true else b)
or_if a b = ground arith

and_if : (a b : Bool) → (b && not a) ≡ (if a then false else b)
and_if a b = ground arith

abbrev pub tree : BTree
tree = record {
  State = List TimeKey;
  empty = [];
  replace_or_insert = λ s x. x ∷ s;
  delete = λ s x. filter (λ u. not (same_key x u)) s;
  ascend_range = λ s lo hi. filter (λ u. not (less u lo) && less u hi) s;
}

pub tree-IsBTree : IsBTree tree
tree-IsBTree = record {
  has = λ s x. contains x s;
  has-empty = λ x. refl;
  has-insert = λ s x y. or_if (same_key x y) (contains y s);
  has-delete =
      λ s x y. contains-filter (λ u. not (same_key x u)) y s ∙ and_if (same_key x y) (contains y s);
  contains-ascend_range = λ s lo hi x. contains-filter (λ u. not (less u lo) && less u hi) x s;
}

module _ {B : Type 0} where
  abbrev pub cache_set : ℕ → GoMap B → GoString → B → SetResult (GoMap B) B
  cache_set capacity [] k b = record { state = insert k b []; removed = []; ok = true }
  cache_set capacity ((k0, b0) ∷ s) k b =
      if ltb (length s) capacity
      then record { state = insert k b ((k0, b0) ∷ s); removed = []; ok = true }
      else record {
        state = insert k b (erase k0 ((k0, b0) ∷ s));
        removed = record { key = k0; entry = b0; reason = no_space } ∷ [];
        ok = true;
      }

abbrev pub cache : (B : Type 0) → ℕ → Cache B
cache B capacity = record {
  State = GoMap B;
  get = λ s k. lookup k s;
  set = cache_set capacity;
  delete = λ s k. (erase k s, lookup k s);
  clean = λ s. (s, []);
  len = λ s. pos (length s);
}

pub cache-IsCache : (B : Type 0) (capacity : ℕ) → IsCache (cache B capacity)
cache-IsCache B capacity = record {
  get-set_self = self;
  get-set = others;
  get-delete = λ s k j. lookup-erase k j s;
  deleted_entry = λ s k. refl;
  get-clean = λ s j. refl;
}
  where
    self :
        (s : GoMap B) (k : GoString) (b : B)
        → (cache_set capacity s k b).ok ≡ true
        → lookup k (cache_set capacity s k b).state ≡ some b
    self [] k b ok = lookup-insert k k b [] ∙ rw (eqb_refl k) refl
    self (e ∷ s) k b ok = elim (Bool-cases (ltb (length s) capacity)) [
      | inl room ↦ rw (room, cache_set) (lookup-insert k k b (e ∷ s) ∙ rw (eqb_refl k) refl)
      | inr full ↦
          rw (full, cache_set) (lookup-insert k k b (erase e.0 (e ∷ s)) ∙ rw (eqb_refl k) refl)
    ]

    others :
        (s : GoMap B) (k j : GoString) (b : B)
        → eqb k j ≡ false
        → lookup j (cache_set capacity s k b).state
          ≡ (if any (λ r. eqb r.key j) (cache_set capacity s k b).removed then none else lookup j s)
    others [] k j b other = lookup-insert k j b [] ∙ rw other refl
    others (e ∷ s) k j b other = elim (Bool-cases (ltb (length s) capacity)) [
      | inl room ↦ rw (room, cache_set) (lookup-insert k j b (e ∷ s) ∙ rw other refl)
      | inr full ↦
          rw (full, cache_set)
            (lookup-insert k j b (erase e.0 (e ∷ s))
              ∙ rw (other, lookup-erase e.0 j (e ∷ s))
                  (elim (Bool-cases (eqb e.0 j)) [ inl h ↦ rw h refl | inr h ↦ rw h refl ]))
    ]
