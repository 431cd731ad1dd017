-- ===== src/Buffer/State.antt =====
-- The struct InMemoryBuffer of internal/buffer/buffer.go and the callback of the cache.
use otel_tail_sampler.Base.{
  ℕ, Bool, true, false, Option, none, some, List, [], ◌∷◌, ◌++◌, length, ltb, if◌then◌else◌,
}
use otel_tail_sampler.Base.Int.{ℤ}
use otel_tail_sampler.Base.Text.{GoString, codes, has_prefix}
use otel_tail_sampler.Pdata.{Pcommon, Float64}
use otel_tail_sampler.Signals.{Context, Signal, metric, log}
use otel_tail_sampler.Codecs.{Codecs}
use otel_tail_sampler.GoMap.{GoMap, lookup, insert, erase}
use otel_tail_sampler.Buffer.Libraries.{
  RemoveReason, expired, no_space, deleted, Removed, Cache, BTree,
}

-- A time index: the tree and the map by which its items are found.
pub record TimeIndex (T : BTree) : Type 0 where
  pub tree : T.State
  pub key_map : GoMap ℤ

module _ {T : BTree} where
  unfoldable pub index_key : TimeIndex T → GoString → ℤ → TimeIndex T
  index_key x key ts = record {
    tree = T.replace_or_insert x.tree (record { timestamp = ts; key = key });
    key_map = insert key ts x.key_map;
  }

  -- The cleanup of an index in the callback.
  unfoldable pub forget : TimeIndex T → GoString → TimeIndex T
  forget x key = elim (lookup key x.key_map) [
    | none ↦ x
    | some ts ↦ record {
      tree = T.delete x.tree (record { timestamp = ts; key = key });
      key_map = erase key x.key_map;
    }
  ]

module _ {P : Pcommon} {F : Float64} (c : Codecs P F) (C : Cache c.Bytes) (T : BTree) where
  pub record Buffer : Type 0 where
    pub cache : C.State
    -- What waits in the channel, the oldest first.
    pub evicted_chan : List (Signal P F)
    pub metric_index : TimeIndex T
    pub log_index : TimeIndex T

  -- New, with the cache that bigcache.New returns.
  unfoldable pub new : C.State → Buffer
  new cache = record {
    cache = cache;
    evicted_chan = [];
    metric_index = record { tree = T.empty; key_map = [] };
    log_index = record { tree = T.empty; key_map = [] };
  }

-- The channel of New.
abbrev pub evicted_capacity : ℕ
evicted_capacity = 1000

abbrev pub is_metric : GoString → Bool
is_metric key = has_prefix key (codes "m_")

abbrev pub is_log : GoString → Bool
is_log key = has_prefix key (codes "l_")

abbrev pub is_eviction : RemoveReason → Bool
is_eviction expired = true
is_eviction no_space = true
is_eviction deleted = false

abbrev pub stamped : ℤ → Context
stamped now = record { received_at = now; source_addr = [] }

module _ {P : Pcommon} {F : Float64} (c : Codecs P F) (now : ℤ) where
  -- The signal that an evicted entry stands for.
  unfoldable pub evicted_signal : GoString → c.Bytes → Option (Signal P F)
  evicted_signal key entry =
      if is_metric key
      then elim (c.unmarshal_metrics entry) [
        | none ↦ none
        | some m ↦ some (metric (record { metrics = m; ctx = stamped now }))
      ]
      else if is_log key
      then elim (c.unmarshal_logs entry) [
        | none ↦ none
        | some l ↦ some (log (record { logs = l; ctx = stamped now }))
      ]
      else none

module _ {P : Pcommon} {F : Float64} (c : Codecs P F) {C : Cache c.Bytes} {T : BTree}
    (now : ℤ) where
  unfoldable pub cleanup : Buffer c C T → GoString → Buffer c C T
  unfolding forget
  cleanup b key =
      if is_metric key
      then record b { metric_index = forget b.metric_index key }
      else if is_log key
      then record b { log_index = forget b.log_index key }
      else b

  -- The send that never blocks: a full channel drops the signal.
  unfoldable pub send_evicted : Buffer c C T → Option (Signal P F) → Buffer c C T
  send_evicted b none = b
  send_evicted b (some sig) =
      if ltb (length b.evicted_chan) evicted_capacity
      then record b { evicted_chan = b.evicted_chan ++ sig ∷ [] }
      else b

  unfoldable pub on_cache_eviction : Buffer c C T → Removed c.Bytes → Buffer c C T
  unfolding cleanup evicted_signal send_evicted
  on_cache_eviction b r =
      let b' = cleanup b r.key in
      if is_eviction r.reason then send_evicted b' (evicted_signal c now r.key r.entry) else b'

  unfoldable pub callbacks : Buffer c C T → List (Removed c.Bytes) → Buffer c C T
  unfolding on_cache_eviction
  callbacks b [] = b
  callbacks b (r ∷ rs) = callbacks (on_cache_eviction b r) rs

  -- b.cache.Set, with the callbacks that it makes.
  unfoldable pub cache_set : Buffer c C T → GoString → c.Bytes → Buffer c C T × Bool
  unfolding callbacks
  cache_set b key entry =
      let r = C.set b.cache key entry in (callbacks (record b { cache = r.state }) r.removed, r.ok)

  -- b.cache.Delete
  unfoldable pub cache_delete : Buffer c C T → GoString → Buffer c C T
  unfolding on_cache_eviction
  cache_delete b key =
      let (s, o) = C.delete b.cache key in
      let b' = record b { cache = s } in
      elim o [
        | none ↦ b'
        | some entry ↦ on_cache_eviction b' (record { key = key; entry = entry; reason = deleted })
      ]

  -- The cleaning that the cache does once a second.
  unfoldable pub cache_clean : Buffer c C T → Buffer c C T
  unfolding callbacks
  cache_clean b = let (s, rs) = C.clean b.cache in callbacks (record b { cache = s }) rs

  unfoldable pub delete_keys : Buffer c C T → List GoString → Buffer c C T
  unfolding cache_delete
  delete_keys b [] = b
  delete_keys b (k ∷ ks) = delete_keys (cache_delete b k) ks
