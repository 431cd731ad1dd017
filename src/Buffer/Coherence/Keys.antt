-- ===== src/Buffer/Coherence/Keys.antt =====
-- The three kinds of keys of internal/buffer/buffer.go, and the tests of the callback.
use otel_tail_sampler.Base.{
  ◌≡◌, refl, ℕ, ◌%◌, ◌/◌, true, false, List, [], ◌∷◌, ◌==◌, Bool-cases, inl, inr, arith,
}
use otel_tail_sampler.Base.Int.{ℤ}
use otel_tail_sampler.Base.Text.{GoString, codes, has_prefix}
use otel_tail_sampler.Hex.{encode_to_string, hex_digit}
use otel_tail_sampler.Buffer.State.{is_metric}
use otel_tail_sampler.Buffer.Store.{time_key}
use otel_tail_sampler.Buffer.Coherence.{is_only_log}

-- No hex digit is an underscore.
hex_digit-not_underscore : (b : ℕ) → (hex_digit (b % 16) == 95) ≡ false
hex_digit-not_underscore b = ground arith

encode_to_string-no_prefix :
    (tid : List ℕ) (k : ℕ) → has_prefix (encode_to_string tid) (k ∷ 95 ∷ []) ≡ false
unfolding encode_to_string has_prefix
encode_to_string-no_prefix [] k = refl
encode_to_string-no_prefix (b ∷ bs) k =
    rw (hex_digit-not_underscore b)
      (elim (Bool-cases (hex_digit (b / 16) == k)) [ inl e ↦ rw e refl | inr e ↦ rw e refl ])

pub trace_key-not_metric : (tid : List ℕ) → is_metric (encode_to_string tid) ≡ false
trace_key-not_metric tid = encode_to_string-no_prefix tid (b'm')

pub trace_key-not_log : (tid : List ℕ) → is_only_log (encode_to_string tid) ≡ false
trace_key-not_log tid = rw (trace_key-not_metric tid, encode_to_string-no_prefix tid (b'l')) refl

pub metric_key-is_metric :
    (ts : ℤ) (uuid : GoString) → is_metric (time_key (codes "m_") ts uuid) ≡ true
unfolding time_key has_prefix
metric_key-is_metric ts uuid = refl

pub metric_key-not_log :
    (ts : ℤ) (uuid : GoString) → is_only_log (time_key (codes "m_") ts uuid) ≡ false
unfolding time_key has_prefix
metric_key-not_log ts uuid = refl

pub log_key-is_log : (ts : ℤ) (uuid : GoString) → is_only_log (time_key (codes "l_") ts uuid) ≡ true
unfolding time_key has_prefix
log_key-is_log ts uuid = refl

pub log_key-not_metric :
    (ts : ℤ) (uuid : GoString) → is_metric (time_key (codes "l_") ts uuid) ≡ false
unfolding time_key has_prefix
log_key-not_metric ts uuid = refl
