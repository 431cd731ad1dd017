-- ===== src/Node/Load/Alone.antt =====
-- The load monitor of cmd/server/main.go and the level of the rollup, on a node that hears no trigger.
use mathlib.Core.Path.{subst}
use mathlib.Core.Option.{some-injective}
use otel_tail_sampler.Base.{
  ◌≡◌, refl, sym, ap, ◌∙◌, ℕ, ◌<◌, Bool, true, false, some, List, [], ◌∷◌, ◌++◌, length, inl, inr,
  Bool-cases, Option-cases, if◌then◌else◌, ltb, arith,
}
use otel_tail_sampler.Base.Int.{ℤ}
use otel_tail_sampler.Base.Text.{eqb}
use otel_tail_sampler.Pdata.{Pcommon, Float64}
use otel_tail_sampler.Config.{Config}
use otel_tail_sampler.Codecs.{Codecs}
use otel_tail_sampler.Gossip.{TriggerEvent}
use otel_tail_sampler.Gossip.Manager
use otel_tail_sampler.Gossip.Manager.{GossipCodec, chan_capacity}
use otel_tail_sampler.Wal.{WalStore}
use otel_tail_sampler.Rollup
use otel_tail_sampler.Rollup.{CardinalityLevel, level_coarse, level_fine}
use otel_tail_sampler.Buffer.Libraries.{Cache, BTree}
use otel_tail_sampler.Buffer.State
use otel_tail_sampler.Buffer.Query.{get_trace_count}
use otel_tail_sampler.Processor
use otel_tail_sampler.Processor.Decisions.{List-cases}
use otel_tail_sampler.Processor.Levels.{level_by, process_trigger-level_by}
use otel_tail_sampler.Server.{load_threshold, load_event, monitor_load}
use otel_tail_sampler.Node
use otel_tail_sampler.Node.Load.{
  IsOther, Encodes, is_loaded, IsAlone, started, ticked, heard_no_trigger, handled,
}
use otel_tail_sampler.Node.Load.Unchanged.{
  KeepsLoad, receive-KeepsLoad, decision_round-KeepsLoad, rollup_round-KeepsLoad,
  eviction_round-KeepsLoad,
}

abbrev level_for : Bool → CardinalityLevel
level_for true = level_coarse
level_for false = level_fine

module _ {F : Float64} where
  -- The level once all triggers that wait were taken.
  abbrev level_after : List (TriggerEvent F) → CardinalityLevel → CardinalityLevel
  level_after [] level = level
  level_after (t ∷ ts) level = level_after ts (level_by t level)

  level_after-append :
      (ts : List (TriggerEvent F)) (t : TriggerEvent F) (level : CardinalityLevel)
      → level_after (ts ++ t ∷ []) level ≡ level_by t (level_after ts level)
  level_after-append [] t level = refl
  level_after-append (u ∷ ts) t level = level_after-append ts t (level_by u level)

module _ (F : Float64) where
  level_by-load_event :
      (threshold : F.Double) (count now : ℤ) (level : CardinalityLevel)
      → level_by (load_event F threshold count now) level
        ≡ level_for (F.less threshold (F.of_int count))
  unfolding eqb
  level_by-load_event threshold count now level =
      elim (Bool-cases (F.less threshold (F.of_int count))) [
        | inl high ↦ rw high refl
        | inr low ↦ rw low refl
      ]

module _ {F : Float64} (G : GossipCodec F) where
  announce-trigger_chan :
      (g : Manager.Manager G) (t : TriggerEvent F) (bytes : G.Bytes)
      → G.marshal (Manager.trigger_message G t) ≡ some bytes
      → length g.trigger_chan < chan_capacity
      → (Node.announce G g (some t)).trigger_chan ≡ g.trigger_chan ++ t ∷ []
  unfolding Manager.broadcast_trigger Manager.offer
  announce-trigger_chan g t bytes done room =
      let free : ltb (length g.trigger_chan) chan_capacity ≡ true = ground arith in
      rw (done, Node.announce, Manager.broadcast_trigger, free) refl

  announced-level_for :
      (g : Manager.Manager G) (threshold : F.Double) (active : Bool) (count now : ℤ)
      (level : CardinalityLevel)
      → Encodes G
      → length g.trigger_chan < chan_capacity
      → level_after g.trigger_chan level ≡ level_for active
      → ((monitor_load F threshold active count now).0 ≡ F.less threshold (F.of_int count))
        × (level_after
              (Node.announce G g (monitor_load F threshold active count now).1).trigger_chan
              level
            ≡ level_for (F.less threshold (F.of_int count)))
  unfolding monitor_load
  announced-level_for g threshold active count now level encodes room l =
      let t = load_event F threshold count now in
      let (bytes, done) = encodes t refl in
      let sent : level_after (Node.announce G g (some t)).trigger_chan level
          ≡ level_for (F.less threshold (F.of_int count)) =
        ap (λ ts. level_after ts level) (announce-trigger_chan g t bytes done room)
        ∙ level_after-append g.trigger_chan t level
        ∙ level_by-load_event F threshold count now (level_after g.trigger_chan level) in
      elim (Bool-cases (F.less threshold (F.of_int count))) [
        | inl high ↦ elim (Bool-cases active) [
          | inl was ↦ rw (high, monitor_load, was) (refl, l ∙ ap level_for was)
          | inr was ↦ rw (high, monitor_load, was) (refl, rw high at sent)
        ]
        | inr low ↦ elim (Bool-cases active) [
          | inl was ↦ rw (low, monitor_load, was) (refl, rw low at sent)
          | inr was ↦ rw (low, monitor_load, was) (refl, l ∙ ap level_for was)
        ]
      ]

module _ {P : Pcommon} {F : Float64} (c : Codecs P F) (G : GossipCodec F) (W : WalStore c.Bytes)
    {C : Cache c.Bytes} {T : BTree} (cfg : Config) where
  -- highLoadActive is what the monitor saw last, and so will the level be.
  abbrev Agrees : Node.Node c G W C T → Bool → Type 0
  Agrees n last =
      (n.high_load_active ≡ last)
      × (level_after n.gossip.trigger_chan n.processor.rollup.current_level ≡ level_for last)

  KeepsLoad-Agrees :
      (n n' : Node.Node c G W C T) (last : Bool)
      → KeepsLoad c G W cfg n n'
      → Agrees n last
      → Agrees n' last
  KeepsLoad-Agrees n n' last (active, triggers, rollup) (a, l) =
      (active ∙ a, rw triggers (rw rollup l))

  start-Agrees :
      (env : ℕ → ℤ × Node.Choices P) (now : ℤ) (s : W.State) (cache : C.State)
      (n : Node.Node c G W C T)
      → Node.start c G W C T cfg env now s cache ≡ some n
      → Agrees n false
  unfolding Node.start Node.initial Manager.new Rollup.new Processor.new
  start-Agrees env now s cache n h =
      elim (Option-cases (Node.store_all c env 0 (State.new c C T cache) (Node.replayed c W s))) [
        | inl panics ↦ let e' = rw (panics, Node.start) at h in cc
        | inr (b, done) ↦
            subst (λ x. Agrees x false) (some-injective _ _ (rw (done, Node.start) at h))
              (refl, refl)
      ]

  trigger_round-Agrees :
      (n : Node.Node c G W C T) (last : Bool)
      → Agrees n last
      → Agrees (Node.trigger_round c G W n) last
  unfolding Node.trigger_round
  trigger_round-Agrees n last (a, l) = elim (List-cases n.gossip.trigger_chan) [
    | inl e ↦ rw (e, Node.trigger_round) (a, l)
    | inr (t, rest, e) ↦
        rw (e, Node.trigger_round)
          (a, ap (level_after rest) (process_trigger-level_by c n.processor t) ∙ (rw e at l))
  ]

  load_round-Agrees :
      (n : Node.Node c G W C T) (last : Bool)
      → Encodes G
      → length n.gossip.trigger_chan < chan_capacity
      → Agrees n last
      → Agrees (Node.load_round c G W cfg n) (is_loaded c G W cfg n)
  unfolding Node.load_round
  load_round-Agrees n last encodes room (a, l) =
      announced-level_for G n.gossip (load_threshold F cfg.buffer.max_traces) n.high_load_active
        (get_trace_count c n.processor.buffer) n.clock n.processor.rollup.current_level encodes room
        (l ∙ ap level_for (sym a))

  step-Agrees :
      (n n' : Node.Node c G W C T) (last : Bool) (e : Node.Event P G)
      → IsOther G e
      → Node.step c G W cfg n e ≡ some n'
      → Agrees n last
      → Agrees n' last
  unfolding Node.step Node.truncation_round
  step-Agrees n n' last (Node.received ch request) other h agrees =
      elim (Option-cases (Node.receive c G W cfg n ch request)) [
        | inl panics ↦ let e' = rw (panics, Node.step) at h in cc
        | inr ((n1, ok), done) ↦
            subst (λ x. Agrees x last) (some-injective _ _ (rw (done, Node.step) at h))
              (KeepsLoad-Agrees n n1 last (receive-KeepsLoad c G W cfg n n1 ok ch request done)
                agrees)
      ]
  step-Agrees n n' last (Node.heard bytes) other h agrees = elim other [ ]
  step-Agrees n n' last Node.decision_ready other h agrees =
      KeepsLoad-Agrees n n' last (decision_round-KeepsLoad c G W cfg n n' h) agrees
  step-Agrees n n' last Node.trigger_ready other h agrees =
      subst (λ x. Agrees x last) (some-injective _ _ h) (trigger_round-Agrees n last agrees)
  step-Agrees n n' last Node.eviction_ready other h agrees =
      subst (λ x. Agrees x last) (some-injective _ _ h)
        (KeepsLoad-Agrees n (Node.eviction_round c G W n) last
          (eviction_round-KeepsLoad c G W cfg n) agrees)
  step-Agrees n n' last Node.rollup_tick other h agrees =
      KeepsLoad-Agrees n n' last (rollup_round-KeepsLoad c G W cfg n n' h) agrees
  step-Agrees n n' last Node.load_tick other h agrees = elim other [ ]
  step-Agrees n n' last Node.truncation_tick other h agrees =
      subst (λ x. Agrees x last) (some-injective _ _ h) agrees
  step-Agrees n n' last Node.cleaning_tick other h agrees =
      subst (λ x. Agrees x last) (some-injective _ _ h) agrees
  step-Agrees n n' last (Node.waited t) other h agrees =
      subst (λ x. Agrees x last) (some-injective _ _ h) agrees

  IsAlone-Agrees :
      (n : Node.Node c G W C T) (last : Bool)
      → Encodes G
      → IsAlone c G W C T cfg n last
      → Agrees n last
  unfolding Node.step
  IsAlone-Agrees n last encodes (started env now s cache h) = start-Agrees env now s cache n h
  IsAlone-Agrees n last encodes (ticked {n = k} before room h) =
      subst (λ x. Agrees x last) (some-injective _ _ h)
        (load_round-Agrees k _ encodes room (IsAlone-Agrees k _ encodes before))
  IsAlone-Agrees n last encodes (heard_no_trigger {n = k} bytes before same h) =
      let (a, l) = IsAlone-Agrees k last encodes before in
      subst (λ x. Agrees x last) (some-injective _ _ h) (a, rw same l)
  IsAlone-Agrees n last encodes (handled {n = k} e before other h) =
      step-Agrees k n last e other h (IsAlone-Agrees k last encodes before)

  -- The rollup follows the load: on a node that hears no trigger of another node, whose load monitor
  -- never finds the channel of triggers full and whose triggers can be encoded, after any other events,
  -- once no trigger waits, the level is coarse if the buffer had more entries than the threshold at the
  -- last tick of the load monitor, and fine if it had not or if there was no tick yet.
  pub IsAlone-current_level :
      (n : Node.Node c G W C T) (last : Bool)
      → Encodes G
      → IsAlone c G W C T cfg n last
      → n.gossip.trigger_chan ≡ []
      → n.processor.rollup.current_level ≡ (if last then level_coarse else level_fine)
  IsAlone-current_level n last encodes alone idle =
      let (a, l) = IsAlone-Agrees n last encodes alone in
      elim (Bool-cases last) [
        | inl e ↦ let k = rw (idle, e) at l in rw e k
        | inr e ↦ let k = rw (idle, e) at l in rw e k
      ]
