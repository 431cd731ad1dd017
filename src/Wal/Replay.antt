-- ===== src/Wal/Replay.antt =====
-- Replay of internal/wal/manager.go, as the decoding of the entries of the log.
use otel_tail_sampler.Base.{
  ℕ, suc, ◌+◌, ◌-◌, ◌≡◌, refl, ◌∙◌, ap, ap₂, Option, none, some, List, [], ◌∷◌, ◌++◌, length,
  get_elem?, arith, Option-cases, inl, inr,
}
use otel_tail_sampler.Base.Int.{ℤ}
use otel_tail_sampler.Pdata.{Pcommon, Float64}
use otel_tail_sampler.Signals.{Signal, trace, metric, log}
use otel_tail_sampler.Wal.{
  WalStore, received, ◌>>=◌, encode, decode, decode_record, replayed_ctx, write, replay_loop,
  replay,
}
use otel_tail_sampler.Wal.Laws.{IsLawful}
use otel_tail_sampler.Codecs.{
  RecordType, trace_record, metric_record, log_record, Codecs, IsFaithful,
}

module _ {P : Pcommon} {F : Float64} (c : Codecs P F) where
  -- The signals of a list of entries; entries that cannot be decoded are passed over.
  unfoldable pub decode_all : List c.Bytes → List (Signal P F)
  decode_all [] = []
  decode_all (b ∷ bs) =
      let rest = decode_all bs in elim (decode c b) [ none ↦ rest | some sig ↦ sig ∷ rest ]

  pub decode_all-append :
      (bs ds : List c.Bytes) → decode_all (bs ++ ds) ≡ decode_all bs ++ decode_all ds
  unfolding decode_all
  decode_all-append [] ds = refl
  decode_all-append (b ∷ bs) ds = elim (Option-cases (decode c b)) [
    | inl e ↦ rw (e, decode_all) (decode_all-append bs ds)
    | inr (sig, e) ↦ rw (e, decode_all) (ap (◌∷◌ sig) (decode_all-append bs ds))
  ]

  -- What is left of a signal after a restart: all but the address of its source.
  unfoldable pub without_source : Signal P F → Signal P F
  without_source (trace s) =
      trace (record { traces = s.traces; ctx = replayed_ctx s.ctx.received_at })
  without_source (metric s) =
      metric (record { metrics = s.metrics; ctx = replayed_ctx s.ctx.received_at })
  without_source (log s) = log (record { logs = s.logs; ctx = replayed_ctx s.ctx.received_at })

  decode_lem :
      IsFaithful c
      → (k : RecordType) (p : c.Bytes) (t : ℤ) (b : c.Bytes)
      → c.marshal_record (record { kind = k; payload = p; timestamp = t }) ≡ some b
      → decode c b ≡ decode_record c k p t
  unfolding decode
  decode_lem faithful k p t b h =
      rw (faithful.records (record { kind = k; payload = p; timestamp = t }) b h) refl

  -- An entry that was encoded is decoded to the signal.
  pub decode-encode :
      IsFaithful c
      → (sig : Signal P F) (b : c.Bytes) → encode c sig ≡ some b
      → decode c b ≡ some (without_source sig)
  unfolding encode without_source received
  decode-encode faithful (trace s) b h = elim (Option-cases (c.marshal_traces s.traces)) [
    | inl e ↦ cc (rw e at h)
    | inr (p, e) ↦
        decode_lem faithful trace_record p s.ctx.received_at b (rw e at h)
        ∙ rw (faithful.traces s.traces p e) refl
  ]
  decode-encode faithful (metric s) b h = elim (Option-cases (c.marshal_metrics s.metrics)) [
    | inl e ↦ cc (rw e at h)
    | inr (p, e) ↦
        decode_lem faithful metric_record p s.ctx.received_at b (rw e at h)
        ∙ rw (faithful.metrics s.metrics p e) refl
  ]
  decode-encode faithful (log s) b h = elim (Option-cases (c.marshal_logs s.logs)) [
    | inl e ↦ cc (rw e at h)
    | inr (p, e) ↦
        decode_lem faithful log_record p s.ctx.received_at b (rw e at h)
        ∙ rw (faithful.logs s.logs p e) refl
  ]

  module _ (W : WalStore c.Bytes) (L : IsLawful W) where
    -- From the position of the rest of the entries on, the loop reads that rest.
    replay_loop-eq-decode_all :
        (s : W.State) (i : ℕ) (bs : List c.Bytes)
        → ((j : ℕ) → W.read s (i + j) ≡ get_elem? bs j)
        → replay_loop c W (length bs) i s ≡ decode_all bs
    unfolding replay_loop decode_all
    replay_loop-eq-decode_all s i [] h = refl
    replay_loop-eq-decode_all s i (b ∷ bs) h =
        let e : W.read s i ≡ some b = ap (W.read s) (omega arith) ∙ h 0 in
        let pick : Option (Signal P F) → List (Signal P F) → List (Signal P F) =
          λ o rest. elim o [ none ↦ rest | some sig ↦ sig ∷ rest ] in
        ap₂ pick (ap (λ r. r >>= decode c) e)
          (replay_loop-eq-decode_all s (suc i) bs (λ j. ap (W.read s) (omega arith) ∙ h (suc j)))

    -- Replay passes on the signals of all entries, in order.
    pub replay-eq-decode_all : (s : W.State) → replay c W s ≡ some (decode_all (L.entries s))
    unfolding replay
    replay-eq-decode_all s = go (L.entries s) refl
      where
        go : (bs : List c.Bytes) → L.entries s ≡ bs → replay c W s ≡ some (decode_all bs)
        go [] e =
            rw (L.first_index-empty s e, L.last_index-eq s, e, L.first-empty s e)
              (unfold replay_loop decode_all in rw (L.read-zero s, replay_loop) refl)
        go (b ∷ bs) e =
            let rounds : L.first s + suc (length bs) - 1 + 1 - L.first s ≡ suc (length bs) =
              omega arith in
            rw (L.first_index-cons s b bs e, L.last_index-eq s, e)
              (ap (λ n. some (replay_loop c W n (L.first s) s)) rounds
                ∙ ap some (
                    replay_loop-eq-decode_all s (L.first s) (b ∷ bs)
                      (λ j. L.read-eq s j ∙ ap (λ l. get_elem? l j) e)))

    -- What is written is replayed after all that was there, without the address of its source.
    pub replay-write :
        IsFaithful c
        → (s s' : W.State) (sig : Signal P F) → write c W s sig ≡ some s'
        → (before : List (Signal P F)) × (replay c W s ≡ some before)
          × (replay c W s' ≡ some (before ++ without_source sig ∷ []))
    unfolding write
    replay-write faithful s s' sig h = elim (Option-cases (encode c sig)) [
      | inl e ↦ cc (rw e at h)
      | inr (b, e) ↦ (
        decode_all (L.entries s),
        replay-eq-decode_all s,
        replay-eq-decode_all s'
            ∙ ap (λ l. some (decode_all l)) (L.entries-write s s' b (written b e)).0
            ∙ ap some (
                decode_all-append (L.entries s) (b ∷ [])
                ∙ ap (λ l. decode_all (L.entries s) ++ l)
                    (unfold decode_all in rw (decode-encode faithful sig b e, decode_all) refl)),
      )
    ]
      where
        written :
            (b : c.Bytes)
            → encode c sig ≡ some b
            → W.write s (L.first s + length (L.entries s)) b ≡ some s'
        written b e =
            ap (λ n. W.write s n b) (omega (arith, L.first_pos s)) ∙ rw (e, L.last_index-eq s) at h
