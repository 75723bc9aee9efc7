-- ===== src/Codec/Granted.antt =====
-- The arrays of addresses and MediaCodec (Media/Codec/CodecBase.cpp, Media/Codec/CodecApi.cpp).
use greatone.Base.{
  ℕ, zero, suc, ◌-◌, ◌^◌, ◌≤◌, ◌<◌, ◌≡◌, Bool, true, false, Option, none, some, List, [], ◌∷◌, ◌++◌,
  pos, length, if◌then◌else◌, Bool-cases, inl, inr, arith, lt→ltb, ltb, le→leb,
}
use greatone.World.{
  Call, media, media_create, media_start, media_stop, get_buffers, dequeue_input, Trace, Outcome,
  done, crash,
}
use greatone.World.History.{replay, replay-append}
use greatone.CommonThread.{is_zero}
use greatone.Codec.{
  MediaEnv, CodecBase, address_at, start_codec, fetch_inputs, fetch_outputs, copy_bytes, count_up,
  fill_input, add_buffer, drain, get_codec_buffer,
}
use greatone.Codec.Drain.{asked, gives, round, hand_out-round}

module _ (env : MediaEnv) (input : Bool) where
  -- The buffers of a direction that MediaCodec gave out last, since it was created or stopped last.
  abbrev pub update : Option (List (Option ℕ)) → Trace → Call → Option (List (Option ℕ))
  update granted log (media (media_create encoder)) = none
  update granted log (media media_stop) = none
  update granted log (media (get_buffers true)) =
      if input
      then (if is_zero (env.calls.status log) then some (env.buffers log) else granted)
      else granted
  update granted log (media (get_buffers false)) =
      if input
      then granted
      else (if is_zero (env.calls.status log) then some (env.buffers log) else granted)
  update granted log _ = granted

  abbrev pub granted : Trace → Option (List (Option ℕ))
  granted log = replay update none [] log

  pub granted-append :
      (log : Trace) (c : Call)
      → granted (log ++ (c ∷ [])) ≡ update (granted log) (log ++ (c ∷ [])) c
  granted-append = replay-append update none []

module _ (env : MediaEnv) where
  -- The object's arrays are what MediaCodec gave out, and its count is at most `n`.
  abbrev pub Mirrors : (n : ℕ) → CodecBase → Trace → Type 0
  Mirrors n s log =
      (s.inputs ≡ granted env true log) × (s.outputs ≡ granted env false log) × (s.count ≤ n)

  abbrev pub Stays : {A : Type 0} → (n : ℕ) → Outcome CodecBase A → Type 0
  Stays n (done a s log) = Mirrors n s log
  Stays n crash = ⊥

  pub start_codec-Stays :
      (n : ℕ) (s : CodecBase) (log : Trace) → Mirrors n s log → Stays n (start_codec env s log)
  unfolding start_codec fetch_inputs fetch_outputs
  start_codec-Stays n s log m =
      let first = (log ++ (media media_start ∷ [])) ++ (media (get_buffers true) ∷ []) in
      let second = first ++ (media (get_buffers false) ∷ []) in
      elim (Bool-cases (is_zero (env.calls.status first))) [
        | inl ins ↦ elim (Bool-cases (is_zero (env.calls.status second))) [
          | inl outs ↦ rw (ins, outs) (simp (granted-append, ins), simp (granted-append, outs), m.2)
          | inr no_outs ↦
              rw (ins, no_outs)
                (simp (granted-append, ins), simp (granted-append, no_outs, m.1), m.2)
        ]
        | inr no_ins ↦ elim (Bool-cases (is_zero (env.calls.status second))) [
          | inl outs ↦
              rw (no_ins, outs)
                (simp (granted-append, no_ins, m.0), simp (granted-append, outs), m.2)
          | inr no_outs ↦
              rw (no_ins, no_outs)
                (simp (granted-append, no_ins, m.0), simp (granted-append, no_outs, m.1), m.2)
        ]
      ]

  -- MediaCodec takes out only input buffers that it gave out, at an address, of `limit` bytes at least.
  abbrev pub InputsGranted : (limit : ℕ) → Type 0
  InputsGranted limit =
      (log : Trace)
      → is_zero (env.calls.status (log ++ (media dequeue_input ∷ []))) ≡ true
      → (a : ℕ) × (address_at (granted env true log) (env.index (log ++ (media dequeue_input ∷ [])))
          ≡ some a)
        × (0 < a)
        × (limit ≤ env.capacity a)

  -- And only output buffers that it gave out.
  abbrev pub OutputsGranted : Type 0
  OutputsGranted =
      (log : Trace)
      → gives env log ≡ true
      → (a : ℕ) × (address_at (granted env false log) (env.index (asked log)) ≡ some a)

  pub add_buffer-Stays :
      (limit n : ℕ) (buf : List ℕ) (len : ℕ) (s : CodecBase) (log : Trace)
      → InputsGranted limit
      → len ≤ length buf
      → len ≤ limit
      → suc n < 2 ^ 31
      → Mirrors n s log
      → Stays (suc n) (add_buffer env buf (pos len) s log)
  unfolding add_buffer fill_input copy_bytes count_up
  add_buffer-Stays limit n buf len s log law long below bound (m0, m1, m2) =
      elim (Bool-cases (is_zero (env.calls.status (log ++ (media dequeue_input ∷ []))))) [
        | inr none_free ↦
            rw none_free (simp (granted-append, m0), simp (granted-append, m1), omega arith)
        | inl free ↦
            let (a, known, address, room) = law log free in
            rw
              (
                free,
                m0,
                known,
                lt→ltb 0 a address,
                le→leb len (length buf) long,
                le→leb len (env.capacity a) (omega arith),
                lt→ltb (suc s.count) (2 ^ 31) (omega arith),
              )
              (simp (granted-append), simp (granted-append, m1), omega arith)
      ]

  granted-round :
      (input : Bool) (s : CodecBase) (log : Trace) (a : ℕ)
      → address_at s.outputs (env.index (asked log)) ≡ some a
      → granted env input (round env s log) ≡ granted env input log
  granted-round input s log a known = elim (Bool-cases s.has_callback) [
    | inl it_has ↦ simp (it_has, known, granted-append)
    | inr it_has_not ↦ simp (it_has_not, granted-append)
  ]

  pub drain-Stays :
      (n fuel : ℕ) (s : CodecBase) (log : Trace)
      → OutputsGranted
      → Mirrors n s log
      → Stays n (drain env fuel s log)
  unfolding drain
  drain-Stays n zero s log law m = m
  drain-Stays n (suc fuel) s log law (m0, m1, m2) = elim (Bool-cases (gives env log)) [
    | inr dry ↦ rw dry (simp (granted-append, m0), simp (granted-append, m1), m2)
    | inl output ↦
        let (a, known) = law log output in
        rw (output, hand_out-round env s log a (rw m1 known))
          (drain-Stays n fuel s (round env s log) law (
            rw (granted-round true s log a (rw m1 known)) m0,
            rw (granted-round false s log a (rw m1 known)) m1,
            m2,
          ))
  ]

  pub get_codec_buffer-Stays :
      (n fuel : ℕ) (s : CodecBase) (log : Trace)
      → OutputsGranted
      → Mirrors n s log
      → Stays n (get_codec_buffer env fuel s log)
  unfolding get_codec_buffer
  get_codec_buffer-Stays n fuel s log law m = elim (Bool-cases (ltb 0 s.count)) [
    | inl some_given ↦ rw some_given (
        drain-Stays n fuel (record s { count = s.count - 1 }) log law
          (m.0, m.1, omega (arith, m.2)))
    | inr none_given ↦ rw none_given m
  ]
