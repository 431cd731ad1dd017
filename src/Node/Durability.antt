-- ===== src/Node/Durability.antt =====
-- What a node of cmd/server/main.go keeps on its log of an accepted request, over its later events and
-- restarts.
use mathlib.Core.Path.{subst}
use mathlib.Core.Option.{some-injective}
use otel_tail_sampler.Base.{
  ◌≡◌, refl, sym, ap, ◌∙◌, ℕ, true, some, List, [], ◌∷◌, ◌++◌, inl, inr, Option-cases, arith,
}
use otel_tail_sampler.Base.Int.{ℤ, pos, ◌+ℤ◌, ◌≤ℤ◌, -ℤ_parts, +ℤ_parts}
use otel_tail_sampler.Pdata.{Pcommon, Float64}
use otel_tail_sampler.Signals.{Signal}
use otel_tail_sampler.Config.{Config}
use otel_tail_sampler.Codecs.{Codecs, IsFaithful}
use otel_tail_sampler.Gossip.Manager.{GossipCodec}
use otel_tail_sampler.Wal
use otel_tail_sampler.Wal.{WalStore, received}
use otel_tail_sampler.Wal.Laws.{IsLawful}
use otel_tail_sampler.Wal.Contract.{
  Spares, Holds, Specs-Holds, Any-append_right, contents, run_calls_refines,
}
use otel_tail_sampler.Wal.Replay.{without_source, replay-eq-decode_all}
use otel_tail_sampler.Buffer.Libraries.{Cache, BTree}
use otel_tail_sampler.Buffer.State
use otel_tail_sampler.Receiver
use otel_tail_sampler.Server
use otel_tail_sampler.Server.{Server}
use otel_tail_sampler.Server.Durability.{replay-consume}
use otel_tail_sampler.Node
use otel_tail_sampler.Node.Log.{signal_of, wal_calls, clock_after, timed_log-step}

-- In nanoseconds.
abbrev pub ten_minutes : ℤ
ten_minutes = pos 600000000000

module _ {P : Pcommon} {F : Float64} where
  received-signal_of : (now : ℤ) (r : Node.Request P F) → received (signal_of now r) ≡ now
  unfolding received
  received-signal_of now (Node.traces_request t) = refl
  received-signal_of now (Node.metrics_request m) = refl
  received-signal_of now (Node.logs_request l) = refl

module _ {P : Pcommon} {F : Float64} (c : Codecs P F) (G : GossipCodec F) (W : WalStore c.Bytes)
    {C : Cache c.Bytes} {T : BTree} (cfg : Config) where
  -- What a node may be later, when the clock never goes back: after any events, and after the process
  -- has stopped at any point and was started again on the log that it left.
  pub data Later (n : Node.Node c G W C T) : Node.Node c G W C T → Type 0 where
    same : Later n n
    stepped :
        {m k : Node.Node c G W C T} (e : Node.Event P G)
        → Later n m
        → m.clock ≤ℤ clock_after c G W m e
        → Node.step c G W cfg m e ≡ some k
        → Later n k
    restarted :
        {m k : Node.Node c G W C T} (env : ℕ → ℤ × Node.Choices P) (now : ℤ) (cache : C.State)
        → Later n m
        → m.clock ≤ℤ now
        → Node.start c G W C T cfg env now m.wal cache ≡ some k
        → Later n k

  module _ (L : IsLawful W) (H : IsFaithful c) where
    timed_log-start :
        (env : ℕ → ℤ × Node.Choices P) (now : ℤ) (s : W.State) (cache : C.State)
        (k : Node.Node c G W C T)
        → Node.start c G W C T cfg env now s cache ≡ some k
        → ◌≡◌ {A = W.State × ℤ} (s, now) (k.wal, k.clock)
    unfolding Node.start
    timed_log-start env now s cache k h =
        elim (Option-cases (Node.store_all c env 0 (State.new c C T cache) (Node.replayed c W s))) [
          | inl panics ↦ let e' = rw (panics, Node.start) at h in cc
          | inr (b, done) ↦
              ap (λ (n : Node.Node c G W C T). (n.wal, n.clock))
                (some-injective _ _ (rw (done, Node.start) at h))
        ]

    spares :
        (sig : Signal P F) (n : Node.Node c G W C T) (e : Node.Event P G)
        → n.clock ≤ℤ received sig +ℤ Server.wal_retention
        → Spares c (received sig) (wal_calls c G W n e)
    spares sig n (Node.received ch request) h = tt
    spares sig n Node.truncation_tick h = (
      ground (
        arith,
        -ℤ_parts n.clock Server.wal_retention,
        +ℤ_parts (received sig) Server.wal_retention,
      ),
      tt,
    )
    spares sig n (Node.heard bytes) h = tt
    spares sig n Node.decision_ready h = tt
    spares sig n Node.trigger_ready h = tt
    spares sig n Node.eviction_ready h = tt
    spares sig n Node.rollup_tick h = tt
    spares sig n Node.load_tick h = tt
    spares sig n Node.cleaning_tick h = tt
    spares sig n (Node.waited t) h = tt

    Later-Holds :
        (sig : Signal P F) (n m : Node.Node c G W C T)
        → Later n m
        → m.clock ≤ℤ received sig +ℤ Server.wal_retention
        → Holds c sig (contents c W L H n.wal)
        → Holds c sig (contents c W L H m.wal)
    Later-Holds sig n _ same young there = there
    Later-Holds sig n k (stepped {m = m} e before timely done) young there =
        let after = timed_log-step c G W cfg m k e done in
        let later : k.clock ≡ clock_after c G W m e = ap (λ t. t.1) after in
        let still = subst (λ t. t ≤ℤ received sig +ℤ Server.wal_retention) later young in
        let young' : m.clock ≤ℤ received sig +ℤ Server.wal_retention = omega arith in
        let (_, _, specs) = run_calls_refines c W L H m.wal (wal_calls c G W m e) in
        subst (λ w. Holds c sig (contents c W L H w)) (sym (ap (λ t. t.0) after))
          (Specs-Holds c sig specs (spares sig m e young')
            (Later-Holds sig n m before young' there))
    Later-Holds sig n k (restarted {m = m} env now cache before timely done) young there =
        let after = timed_log-start env now m.wal cache k done in
        let later : now ≡ k.clock = ap (λ t. t.1) after in
        let still = subst (λ t. t ≤ℤ received sig +ℤ Server.wal_retention) (sym later) young in
        let young' : m.clock ≤ℤ received sig +ℤ Server.wal_retention = omega arith in
        subst (λ w. Holds c sig (contents c W L H w)) (ap (λ t. t.0) after)
          (Later-Holds sig n m before young' there)

    serve-Holds :
        (now : ℤ) (ch : Node.Choices P) (s s' : Server c G W C T) (request : Node.Request P F)
        → Node.serve c G W cfg now ch s request ≡ some (s', true)
        → Holds c (signal_of now request) (contents c W L H s'.wal)
    unfolding Receiver.export_traces Receiver.export_metrics Receiver.export_logs without_source
    serve-Holds now ch s s' request h = held request h
      where
        in_contents :
            (sig : Signal P F) (before : List (Signal P F))
            → Wal.replay c W s'.wal ≡ some (before ++ sig ∷ [])
            → Holds c sig (contents c W L H s'.wal)
        in_contents sig before new =
            subst (Holds c sig)
              (sym (some-injective _ _ (sym (replay-eq-decode_all c W L s'.wal) ∙ new)))
              (Any-append_right c sig before (sig ∷ []) (inl refl))

        held :
            (r : Node.Request P F)
            → Node.serve c G W cfg now ch s r ≡ some (s', true)
            → Holds c (signal_of now r) (contents c W L H s'.wal)
        held (Node.traces_request t) h' =
            let (before, _, new) =
              replay-consume c H G W L cfg.decision now ch.by_trace ch.by_log ch.uuid s s' _ h' in
            in_contents (signal_of now (Node.traces_request t)) before new
        held (Node.metrics_request m) h' =
            let (before, _, new) =
              replay-consume c H G W L cfg.decision now ch.by_trace ch.by_log ch.uuid s s' _ h' in
            in_contents (signal_of now (Node.metrics_request m)) before new
        held (Node.logs_request l) h' =
            let (before, _, new) =
              replay-consume c H G W L cfg.decision now ch.by_trace ch.by_log ch.uuid s s' _ h' in
            in_contents (signal_of now (Node.logs_request l)) before new

    -- A request that a node answers without an error is on the log for ten minutes: whatever the node
    -- does in that time, and however often it stops and is started again on its log, when the clock
    -- does not go back, a replay of its log succeeds and gives the signal of the request.
    pub replay-Later :
        (n n1 n2 : Node.Node c G W C T) (ch : Node.Choices P) (request : Node.Request P F)
        → Node.receive c G W cfg n ch request ≡ some (n1, true)
        → Later n1 n2
        → n2.clock ≤ℤ n.clock +ℤ ten_minutes
        → (sigs : List (Signal P F)) × (Wal.replay c W n2.wal ≡ some sigs)
          × Holds c (signal_of n.clock request) sigs
    unfolding Node.receive
    replay-Later n n1 n2 ch request h later young =
        let sig = signal_of n.clock request in
        elim (Option-cases (Node.serve c G W cfg n.clock ch (Node.server_of c G W n) request)) [
          | inl e ↦ let e' = rw (e, Node.receive) at h in cc
          | inr ((s, ok), e) ↦
              let result = some-injective _ _ (rw (e, Node.receive) at h) in
              let accepted : Node.serve c G W cfg n.clock ch (Node.server_of c G W n) request
                  ≡ some (s, true) =
                e ∙ ap (λ b. some (s, b)) (ap (λ t. t.1) result) in
              let there : Holds c sig (contents c W L H n1.wal) =
                subst (λ w. Holds c sig (contents c W L H w)) (ap (λ t. t.0.wal) result)
                  (serve-Holds n.clock ch (Node.server_of c G W n) s request accepted) in
              let young' : n2.clock ≤ℤ received sig +ℤ Server.wal_retention =
                subst (λ t. n2.clock ≤ℤ t +ℤ Server.wal_retention)
                  (sym (received-signal_of n.clock request)) young in
              (
                contents c W L H n2.wal,
                replay-eq-decode_all c W L n2.wal,
                Later-Holds sig n1 n2 later young' there,
              )
        ]
