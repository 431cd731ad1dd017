-- ===== src/Buffer/Coherence.antt =====
-- internal/buffer/buffer.go: when the two indices describe what is in the cache.
pub mod Index
pub mod Callbacks
pub mod Keeps
pub mod Keys
pub mod Steps
pub mod Runs
use otel_tail_sampler.Base.{◌≡◌, ◌≢◌, Bool, true, false, none, some, not, ◌&&◌}
use otel_tail_sampler.Base.Int.{ℤ}
use otel_tail_sampler.Base.Text.{GoString}
use otel_tail_sampler.Pdata.{Pcommon, Float64}
use otel_tail_sampler.Codecs.{Codecs}
use otel_tail_sampler.GoMap.{lookup}
use otel_tail_sampler.Buffer.Libraries.{Cache, BTree, IsBTree}
use otel_tail_sampler.Buffer.State.{Buffer, TimeIndex, is_metric, is_log}
use otel_tail_sampler.Buffer.Coherence.Index.{IsExact}

-- The test that the callback makes for a key of logTimeIndex.
abbrev pub is_only_log : GoString → Bool
is_only_log k = not (is_metric k) && is_log k

-- The tree and the map agree, the keys are of the right kind, and each is in the cache.
pub record IsIndexOf {T : BTree} (L : IsBTree T) {B : Type 0} (C : Cache B) (s : C.State)
    (kind : GoString → Bool) (x : TimeIndex T) : Type 0 where
  pub exact : IsExact L x
  pub of_kind : (k : GoString) → lookup k x.key_map ≢ none → kind k ≡ true
  pub cached : (k : GoString) → lookup k x.key_map ≢ none → C.get s k ≢ none

module _ {P : Pcommon} {F : Float64} (c : Codecs P F) {C : Cache c.Bytes} {T : BTree}
    (L : IsBTree T) where
  pub record IsCoherent (b : Buffer c C T) : Type 0 where
    pub metrics : IsIndexOf L C b.cache is_metric b.metric_index
    pub logs : IsIndexOf L C b.cache is_only_log b.log_index
