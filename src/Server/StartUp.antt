-- ===== src/Server/StartUp.antt =====
-- The start-up and the end of main in cmd/server/main.go. Whether a part can be opened is a parameter.
use otel_tail_sampler.Base.{
  ◌≡◌, refl, sym, ap, ◌∙◌, ◌↔◌, Bool, true, List, [], ◌∷◌, ◌++◌, inl, inr, All, Bool-cases,
  if◌then◌else◌,
}

-- What main opens, the context included.
pub data Part : Type 0 where
  context telemetry wal exporter buffer discovery gossip receiver : Part

-- How the process ends.
pub data Exit : Type 0 where
  -- log.Fatalf on the error of a part: os.Exit runs none of the deferred calls of these open parts.
  fatal : Part → List Part → Exit
  -- After a signal: the parts that the deferred calls close, in this order.
  stopped : List Part → Exit

stopped-injective : (a b : List Part) → stopped a ≡ stopped b → a ≡ b
stopped-injective a b e = cc

module _ (opens : Part → Bool) where
  -- A part without which main does not go on, and whose closing is deferred.
  abbrev pub require : Part → List Part → (List Part → Exit) → Exit
  require p up rest = let done = rest (p ∷ up) in if opens p then done else fatal p up

  -- The receiver, and the wait for a signal.
  unfoldable pub serve_until_signal : List Part → Exit
  serve_until_signal up = require receiver up stopped

  -- The telemetry is left out if it fails, and nothing is deferred for the discovery. An error of the
  -- replay is only logged.
  unfoldable pub run_main : Exit
  unfolding serve_until_signal
  run_main =
      let first = if opens telemetry then telemetry ∷ context ∷ [] else context ∷ [] in
      require wal first (λ up1. require exporter up1 (λ up2. require buffer up2 (λ up3.
        if opens discovery then require gossip up3 serve_until_signal else fatal discovery up3)))

  abbrev pub needed : List Part
  needed = wal ∷ exporter ∷ buffer ∷ discovery ∷ gossip ∷ receiver ∷ []

  -- The latest first.
  abbrev pub in_order : List Part
  in_order =
      receiver
      ∷ gossip
      ∷ buffer
      ∷ exporter
      ∷ wal
      ∷ ((if opens telemetry then telemetry ∷ [] else []) ++ context ∷ [])

  run_main_done : All (λ p. opens p ≡ true) needed → run_main ≡ stopped in_order
  unfolding run_main serve_until_signal
  run_main_done (w, (e, (b, (d, (g, (r, _)))))) =
      rw (w, e, b, d, g, r)
        (elim (Bool-cases (opens telemetry)) [ inl t ↦ rw t refl | inr t ↦ rw t refl ])

  run_main_needs :
      (closed : List Part) → run_main ≡ stopped closed → All (λ p. opens p ≡ true) needed
  unfolding run_main serve_until_signal
  run_main_needs closed h = elim (Bool-cases (opens wal)) [
    | inr n ↦ cc (rw n at h)
    | inl w ↦ elim (Bool-cases (opens exporter)) [
      | inr n ↦ cc (rw (w, n) at h)
      | inl e ↦ elim (Bool-cases (opens buffer)) [
        | inr n ↦ cc (rw (w, e, n) at h)
        | inl b ↦ elim (Bool-cases (opens discovery)) [
          | inr n ↦ cc (rw (w, e, b, n) at h)
          | inl d ↦ elim (Bool-cases (opens gossip)) [
            | inr n ↦ cc (rw (w, e, b, d, n) at h)
            | inl g ↦ elim (Bool-cases (opens receiver)) [
              | inr n ↦ cc (rw (w, e, b, d, g, n) at h)
              | inl r ↦ (w, (e, (b, (d, (g, (r, tt))))))
            ]
          ]
        ]
      ]
    ]
  ]

  -- The process serves until a signal exactly if the log, the exporter, the buffer, the discovery, the
  -- gossip and the receiver can be opened. Then each open part is closed once, in the reverse order; the
  -- context of the loops is cancelled last, when the log and the exporter are closed already.
  pub run_main_iff :
      (closed : List Part)
      → (run_main ≡ stopped closed) ↔ (All (λ p. opens p ≡ true) needed × (closed ≡ in_order))
  run_main_iff closed = (
    λ h.
        let all_open = run_main_needs closed h in
        (all_open, stopped-injective closed in_order (sym h ∙ run_main_done all_open)),
    λ (all_open, e). run_main_done all_open ∙ ap stopped (sym e),
  )
