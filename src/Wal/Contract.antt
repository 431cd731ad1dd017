-- ===== src/Wal/Contract.antt =====
-- The contract of internal/wal/manager.go: to a client the log is a sequence of signals, and a call is
-- one step of a specification on such sequences.
use mathlib.Core.Path.{subst}
use mathlib.Core.Option.{some-injective}
use otel_tail_sampler.Base.{
  ◌≡◌, refl, sym, ap, ◌∙◌, Bool, true, false, Option, none, some, List, [], ◌∷◌, ◌++◌, All, Any,
  inl, inr, Option-cases, arith,
}
use otel_tail_sampler.Base.Int.{ℤ, ◌<ℤ◌, ◌≤ℤ◌}
use otel_tail_sampler.Pdata.{Pcommon, Float64}
use otel_tail_sampler.Signals.{Signal}
use otel_tail_sampler.Codecs.{Codecs, IsFaithful}
use otel_tail_sampler.Wal.{WalStore, received}
use otel_tail_sampler.Wal
use otel_tail_sampler.Wal.Laws.{IsLawful}
use otel_tail_sampler.Wal.Replay.{without_source, replay-write, decode_all, replay-eq-decode_all}
use otel_tail_sampler.Wal.Truncate.{IsBefore, replay-truncate_before}

-- A call of a method that changes the log.
pub data Call (P : Pcommon) (F : Float64) : Type 0 where
  write : Signal P F → Call P F
  truncate : ℤ → Call P F

module _ {P : Pcommon} {F : Float64} (c : Codecs P F) where
  -- What a call does to the sequence of signals, with whether it succeeds: nothing if it fails; a write
  -- appends its signal; a truncation drops a prefix of signals from before its time.
  pub data Spec (l l' : List (Signal P F)) : Call P F → Bool → Type 0 where
    failed : (call : Call P F) → l' ≡ l → Spec l l' call false
    appended : (sig : Signal P F) → l' ≡ l ++ without_source c sig ∷ [] → Spec l l' (write sig) true
    dropped :
        (t : ℤ) (old : List (Signal P F))
        → All (IsBefore c t) old
        → l ≡ old ++ l'
        → Spec l l' (truncate t) true

  pub data Specs
      : List (Call P F) → List Bool → List (Signal P F) → List (Signal P F) → Type 0 where
    stop : (l : List (Signal P F)) → Specs [] [] l l
    next :
        {l m k : List (Signal P F)} {call : Call P F} {ok : Bool} {calls : List (Call P F)}
        {replies : List Bool}
        → Spec l m call ok
        → Specs calls replies m k
        → Specs (call ∷ calls) (ok ∷ replies) l k

  -- No truncation of these calls reaches a signal that was received at `t`.
  abbrev pub Spares : ℤ → List (Call P F) → Type 0
  Spares t [] = Unit
  Spares t (write sig ∷ calls) = Spares t calls
  Spares t (truncate cutoff ∷ calls) = (cutoff ≤ℤ t) × Spares t calls

  abbrev pub Holds : Signal P F → List (Signal P F) → Type 0
  Holds sig l = Any (λ x. x ≡ sig) l

  pub Any-append_left :
      (sig : Signal P F) (l k : List (Signal P F)) → Holds sig l → Holds sig (l ++ k)
  Any-append_left sig [] k h = elim h [ ]
  Any-append_left sig (x ∷ l) k (inl e) = inl e
  Any-append_left sig (x ∷ l) k (inr h) = inr (Any-append_left sig l k h)

  pub Any-append_right :
      (sig : Signal P F) (l k : List (Signal P F)) → Holds sig k → Holds sig (l ++ k)
  Any-append_right sig [] k h = h
  Any-append_right sig (x ∷ l) k h = inr (Any-append_right sig l k h)

  kept_after :
      (sig : Signal P F) (t : ℤ) (old k : List (Signal P F))
      → All (IsBefore c t) old
      → t ≤ℤ received sig
      → Holds sig (old ++ k)
      → Holds sig k
  kept_after sig t [] k h new there = there
  kept_after sig t (x ∷ old) k (hx, h) new (inl e) =
      let old_sig : received sig <ℤ t = subst (λ y. received y <ℤ t) e hx in absurd (omega arith)
  kept_after sig t (x ∷ old) k (hx, h) new (inr there) = kept_after sig t old k h new there

  -- By the contract, a signal that is in the log stays in it over calls whose truncations spare it.
  pub Specs-Holds :
      (sig : Signal P F) {calls : List (Call P F)} {replies : List Bool} {l k : List (Signal P F)}
      → Specs calls replies l k
      → Spares (received sig) calls
      → Holds sig l
      → Holds sig k
  Specs-Holds sig (stop _) spared there = there
  Specs-Holds sig (next (failed (write x) e) rest) spared there =
      Specs-Holds sig rest spared (subst (Holds sig) (sym e) there)
  Specs-Holds sig (next (failed (truncate t) e) rest) spared there =
      Specs-Holds sig rest spared.1 (subst (Holds sig) (sym e) there)
  Specs-Holds sig (next (appended x e) rest) spared there =
      Specs-Holds sig rest spared (subst (Holds sig) (sym e) (Any-append_left sig _ _ there))
  Specs-Holds sig (next (dropped t old before e) rest) spared there =
      Specs-Holds sig rest spared.1
        (kept_after sig t old _ before spared.0 (subst (Holds sig) e there))

  module _ (W : WalStore c.Bytes) where
    -- An error leaves the log as it is.
    abbrev pub reply_of : W.State → Option W.State → W.State × Bool
    reply_of s none = (s, false)
    reply_of s (some s') = (s', true)

    unfoldable pub run_call : W.State → Call P F → W.State × Bool
    run_call s (write sig) = reply_of s (Wal.write c W s sig)
    run_call s (truncate t) = reply_of s (Wal.truncate_before c W s t)

    -- The calls of a client in order, with their replies.
    unfoldable pub run_calls : W.State → List (Call P F) → W.State × List Bool
    unfolding run_call
    run_calls s [] = (s, [])
    run_calls s (call ∷ calls) =
        let (s1, ok) = run_call s call in
        let (s2, replies) = run_calls s1 calls in (s2, ok ∷ replies)

    module _ (L : IsLawful W) (H : IsFaithful c) where
      abbrev pub contents : W.State → List (Signal P F)
      contents s = decode_all c (L.entries s)

      same_contents :
          (s : W.State) (l : List (Signal P F)) → Wal.replay c W s ≡ some l → contents s ≡ l
      same_contents s l h = some-injective _ _ (sym (replay-eq-decode_all c W L s) ∙ h)

      run_call_refines :
          (s : W.State) (call : Call P F)
          → Spec (contents s) (contents (run_call s call).0) call (run_call s call).1
      unfolding run_call
      run_call_refines s (write sig) = elim (Option-cases (Wal.write c W s sig)) [
        | inl e ↦ rw (e, run_call) (failed (write sig) refl)
        | inr (s', e) ↦
            let (l, old, new) = replay-write c W L H s s' sig e in
            rw (e, run_call)
              (appended sig (
                same_contents s' _ new
                ∙ ap (λ x. x ++ without_source c sig ∷ []) (sym (same_contents s l old))))
      ]
      run_call_refines s (truncate t) = elim (Option-cases (Wal.truncate_before c W s t)) [
        | inl e ↦ rw (e, run_call) (failed (truncate t) refl)
        | inr (s', e) ↦
            let (gone, kept, old, new, before) = replay-truncate_before c t W L s s' e in
            rw (e, run_call)
              (dropped t gone before
                (same_contents s _ old ∙ ap (λ x. gone ++ x) (sym (same_contents s' kept new))))
      ]

      -- The log implements its contract: for any calls, a replay before and a replay after them both
      -- succeed, and the calls with their replies lead from the signals of the one to those of the other
      -- by the steps of the specification.
      pub run_calls_refines :
          (s : W.State) (calls : List (Call P F))
          → (Wal.replay c W s ≡ some (contents s))
            × (Wal.replay c W (run_calls s calls).0 ≡ some (contents (run_calls s calls).0))
            × Specs calls (run_calls s calls).1 (contents s) (contents (run_calls s calls).0)
      unfolding run_calls
      run_calls_refines s [] =
          (replay-eq-decode_all c W L s, replay-eq-decode_all c W L s, stop (contents s))
      run_calls_refines s (call ∷ calls) =
          let rest = run_calls_refines (run_call s call).0 calls in
          (replay-eq-decode_all c W L s, rest.1, next (run_call_refines s call) rest.2)
