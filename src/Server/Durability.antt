-- ===== src/Server/Durability.antt =====
-- Consume of cmd/server/main.go and the write-ahead log.
use mathlib.Core.Option.{some-injective}
use mathlib.Core.Path.{subst}
use otel_tail_sampler.Base.{
  All, ◌≡◌, ap, Bool, true, false, some, List, [], ◌∷◌, ◌++◌, inl, inr, Option-cases,
}
use otel_tail_sampler.Base.Int.{ℤ, ◌-ℤ◌}
use otel_tail_sampler.Base.Text.{GoString}
use otel_tail_sampler.Pdata.{Pcommon, Float64, Traces, Logs}
use otel_tail_sampler.Signals.{Signal}
use otel_tail_sampler.Config.{DecisionConfig}
use otel_tail_sampler.Codecs.{Codecs, IsFaithful}
use otel_tail_sampler.Gossip.Manager.{GossipCodec}
use otel_tail_sampler.Wal
use otel_tail_sampler.Wal.{WalStore}
use otel_tail_sampler.Wal.Laws.{IsLawful}
use otel_tail_sampler.Wal.Replay.{replay-write, without_source, decode_all, replay-eq-decode_all}
use otel_tail_sampler.Wal.Truncate.{IsBefore, replay-truncate_before}
use otel_tail_sampler.Buffer.Libraries.{Cache, BTree}
use otel_tail_sampler.Buffer.State.{Buffer}
use otel_tail_sampler.Buffer.Store.{RangeOrder, store}
use otel_tail_sampler.Server

module _ {P : Pcommon} {F : Float64} (c : Codecs P F) (H : IsFaithful c) (G : GossipCodec F)
    (W : WalStore c.Bytes) (L : IsLawful W) {C : Cache c.Bytes} {T : BTree} (cfg : DecisionConfig)
    (now : ℤ) where
  -- A signal that is consumed without an error is the last that a replay gives, without the address of
  -- its source; what a replay gave before stays in front of it.
  pub replay-consume :
      (by_trace : RangeOrder (Traces P)) (by_log : RangeOrder (Logs P)) (uuid : GoString)
      → (s s' : Server.Server c G W C T) (sig : Signal P F)
      → Server.consume c G W cfg now by_trace by_log uuid s sig ≡ some (s', true)
      → (before : List (Signal P F)) × (Wal.replay c W s.wal ≡ some before)
        × (Wal.replay c W s'.wal ≡ some (before ++ without_source c sig ∷ []))
  unfolding Server.consume
  replay-consume by_trace by_log uuid s s' sig h = elim (Option-cases (Wal.write c W s.wal sig)) [
    | inl fails ↦ let e = some-injective _ _ (rw (fails, Server.consume) at h) in cc
    | inr (wal', written) ↦ elim (Option-cases (store c now by_trace by_log uuid s.buffer sig)) [
      | inl panics ↦ let e = rw (written, Server.consume, panics) at h in cc
      | inr (stored, done) ↦
          let e = some-injective _ _ (rw (written, Server.consume, done) at h) in
          let (before, old, new) = replay-write c W L H s.wal wal' sig written in
          (
            before,
            old,
            subst (λ w. Wal.replay c W w ≡ some (before ++ without_source c sig ∷ []))
                (same_wal wal' stored e) new,
          )
    ]
  ]
    where
      same_wal :
          (wal' : W.State) (stored : Buffer c C T × Bool)
          → Server.kept c G W cfg now s wal' stored sig ≡ (s', true)
          → wal' ≡ s'.wal
      same_wal wal' (b, true) e = ap (λ t. t.0.wal) e
      same_wal wal' (b, false) e = ap (λ t. t.0.wal) e

module _ {P : Pcommon} {F : Float64} (c : Codecs P F) (W : WalStore c.Bytes) (L : IsLawful W)
    (now : ℤ) where
  -- A tick of the truncation loop, whether it fails or not, leaves a log whose replay ends the replay of
  -- the log before it, and every signal that is missing was received more than ten minutes ago.
  pub replay-truncate_wal :
      (s : W.State)
      → (dropped : List (Signal P F)) × (kept : List (Signal P F)) × (Wal.replay c W s
          ≡ some (dropped ++ kept))
        × (Wal.replay c W (Server.truncate_wal c W now s) ≡ some kept)
        × All (IsBefore c (now -ℤ Server.wal_retention)) dropped
  unfolding Server.truncate_wal
  replay-truncate_wal s =
      let cutoff = now -ℤ Server.wal_retention in
      elim (Option-cases (Wal.truncate_before c W s cutoff)) [
        | inl fails ↦ (
          [],
          decode_all c (L.entries s),
          replay-eq-decode_all c W L s,
          rw (fails, Server.truncate_wal) (replay-eq-decode_all c W L s),
          tt,
        )
        | inr (s', done) ↦
            let (dropped, kept, old, new, before) = replay-truncate_before c cutoff W L s s' done in
            (dropped, kept, old, rw (done, Server.truncate_wal) new, before)
      ]
