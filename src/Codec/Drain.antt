-- ===== src/Codec/Drain.antt =====
-- The loop of `getCodecBuffer` (Media/Codec/CodecBase.cpp), over the outputs that MediaCodec has.
use greatone.Base.{
  ℕ, zero, suc, ◌%◌, ◌^◌, ◌≤◌, ◌<◌, ◌≡◌, refl, Bool, true, false, Option, none, some, List, [], ◌∷◌,
  ◌++◌, of_word, if◌then◌else◌, Bool-cases, inl, inr, arith,
}
use greatone.World.{media, dequeue_output, on_buffer, release_output, Trace, done}
use greatone.CommonThread.{is_zero}
use greatone.Codec.{MediaEnv, CodecBase, address_at, hand_out, drain}

-- The calls up to the next dequeue of an output.
abbrev pub asked : Trace → Trace
asked log = log ++ (media dequeue_output ∷ [])

abbrev pub delivery : Option ℕ → (size flags : ℕ) → Trace
delivery none size flags = []
delivery (some address) size flags = media (on_buffer address (of_word (size % 2 ^ 32)) flags) ∷ []

module _ (env : MediaEnv) where
  -- One output: it is taken out, goes to the callback, and is given back.
  abbrev pub round : CodecBase → Trace → Trace
  round s log =
      let out = asked log in
      let seen =
        if s.has_callback
        then out ++ delivery (address_at s.outputs (env.index out)) (env.size out) (env.flags out)
        else out in
      seen ++ (media (release_output (env.index out)) ∷ [])

  abbrev pub rounds : CodecBase → ℕ → Trace → Trace
  rounds s zero log = log
  rounds s (suc k) log = rounds s k (round s log)

  -- Whether the dequeue after these calls gives an output.
  abbrev pub gives : Trace → Bool
  gives log = is_zero (env.calls.status (asked log))

  abbrev state : (inputs outputs : Option (List (Option ℕ))) → Bool → ℕ → CodecBase
  state inputs outputs has_callback count = record {
    inputs = inputs;
    outputs = outputs;
    has_callback = has_callback;
    count = count;
  }

  fields-round :
      (inputs outputs : Option (List (Option ℕ))) (b : Bool) (count : ℕ) (log : Trace) (a : ℕ)
      → address_at outputs (env.index (asked log)) ≡ some a
      → hand_out env (state inputs outputs b count) (asked log)
        ≡ done tt (state inputs outputs b count) (round (state inputs outputs b count) log)
  unfolding hand_out
  fields-round inputs outputs true count log a known = rw known refl
  fields-round inputs outputs false count log a known = refl

  pub hand_out-round :
      (s : CodecBase) (log : Trace) (a : ℕ)
      → address_at s.outputs (env.index (asked log)) ≡ some a
      → hand_out env s (asked log) ≡ done tt s (round s log)
  hand_out-round s = fields-round s.inputs s.outputs s.has_callback s.count

  -- Whether each of the next `j` dequeues gives an output.
  abbrev pub all_give : CodecBase → ℕ → Trace → Bool
  all_give s zero log = true
  all_give s (suc j) log = if gives log then all_give s j (round s log) else false

  -- How the loop ends: after some outputs, at most `k`, with the error of the next dequeue.
  abbrev pub Ends : CodecBase → (k fuel : ℕ) → Trace → Type 0
  Ends s k fuel log =
      (j : ℕ) × (j ≤ k)
      × (all_give s j log ≡ true)
      × (gives (rounds s j log) ≡ false)
      × (drain env fuel s log
          ≡ done (some (env.calls.status (asked (rounds s j log)))) s (asked (rounds s j log)))

  -- When the index of every output belongs to a buffer whose address was fetched, and MediaCodec
  -- has at most `k` outputs, the loop ends with any fuel above `k`: each of them, in order, is handed
  -- to the callback (if there is one) at its address and given back with its index, once, before the
  -- next is asked for.
  pub drain-Ends :
      (s : CodecBase) (k fuel : ℕ) (log : Trace)
      → ((l : Trace)
          → gives l ≡ true
          → (a : ℕ) × (address_at s.outputs (env.index (asked l)) ≡ some a))
      → gives (rounds s k log) ≡ false
      → k < fuel
      → Ends s k fuel log
  unfolding drain
  drain-Ends s k zero log known dry h = absurd (omega arith)
  drain-Ends s zero (suc fuel) log known dry h = (0, omega arith, refl, dry, rw dry refl)
  drain-Ends s (suc k) (suc fuel) log known dry h = elim (Bool-cases (gives log)) [
    | inr no_output ↦ (0, omega arith, refl, no_output, rw no_output refl)
    | inl output ↦
        let rest = drain-Ends s k fuel (round s log) known dry (omega arith) in
        (
          suc rest.0,
          omega (arith, rest.1),
          rw output rest.2,
          rest.3,
          rw (output, hand_out-round s log (known log output).0 (known log output).1) rest.4,
        )
  ]
