-- ===== src/CodecMedia/Receiving.antt =====
-- Receivers that are started and stopped through Media/CodecMedia.cpp.
use greatone.Base.{
  get_or, arith, ℕ, ℤ, Bool, true, false, Option, none, some, List, [], ◌∷◌, ◌++◌, ◌≡◌, refl, ap,
  sym, subst, ◌∙◌, is_neg, ◌==◌, Bool-cases, inl, inr,
}
use greatone.World.{
  Env, Prog, Outcome, done, crash, Trace, ret, ◌>>◌, after, session, create, codec,
  convert_key_value, start_codec, system, pthread_create,
}
use greatone.CommonThread.{run, request_exit, is_zero}
use greatone.Loader.{Lib, load_base_lib}
use greatone.Loader.Laws.{AllFound, get_or-AllFound}
use greatone.RtpSender.Defs.{set_defaults}
use greatone.Receive.Defs as Receive
use greatone.Receive.Defs.{RtpReceive}
use greatone.CodecReceiver as Receiver
use greatone.CodecReceiver.{CodecReceiver}
use greatone.CodecMedia.{
  CodecMedia, on_receiver, call_base, load_and_convert, start_codec_recver, stop_codec_recver,
}

-- What `StartCodecRecver` is called with.
pub record Start : Type 0 where
  pub sdk : ℕ
  pub surface : Bool
  pub flags : ℤ
  pub port : ℤ

module _ (env : Env) where
  -- A receiver is started and stopped.
  abbrev pub cycle : Start → Prog CodecMedia Bool
  cycle st = start_codec_recver env st.sdk st.surface st.flags st.port >> stop_codec_recver

  abbrev pub cycles : List Start → Prog CodecMedia Bool
  cycles [] = ret true
  cycles (st ∷ starts) = cycle st >> cycles starts

-- The library is loaded, and the function that converts the format is there.
abbrev pub Loaded : Lib → Type 0
Loaded lib = ((lib.handle == 0) ≡ false) × ((get_or lib.functions 7 0 == 0) ≡ false)

-- The library is loaded, and all of its eight functions are there, as after a `LoadBaseLib` that
-- returned true.
abbrev pub Complete : Lib → Type 0
Complete lib = ((lib.handle == 0) ≡ false) × AllFound lib.functions

seventh : (functions : List ℕ) → AllFound functions → (get_or functions 7 0 == 0) ≡ false
seventh functions (eight, found) = get_or-AllFound functions 7 (omega (arith, eight)) found

abbrev pub idle : CodecMedia → CodecMedia
idle s = record s { receiver = none }

-- A receiver after `initSession`, with its callback or without.
abbrev fresh : ℤ → (has_callback : Bool) → RtpReceive
fresh port has_callback = record Receive.new { local_port = port; has_callback = has_callback }

abbrev with_receiver : CodecMedia → Option CodecReceiver → CodecMedia
with_receiver s r = record s { receiver = r }

abbrev pub Ended : CodecMedia → Outcome CodecMedia Bool → Type 0
Ended s (done r t log) = (r ≡ true) × (t ≡ idle s)
Ended s crash = ⊥

started-Ended :
    (env : Env) (running : Bool) (r : RtpReceive) (s : CodecMedia) (log : Trace)
    → Ended s (
        ((on_receiver (Receiver.start_video env) >> ret true) >> stop_codec_recver)
          (record s { receiver = some (record { running = running; receive = some r }) })
          log)
unfolding stop_codec_recver Receiver.start_video Receiver.stop_video Receiver.de_init
    Receive.start_thread Receive.stop_thread Receive.deinit_session run request_exit
started-Ended env running r s log =
    elim (Bool-cases (
      is_zero
        (env.status ((log ++ (codec start_codec ∷ [])) ++ (system (pthread_create true) ∷ []))))) [
          | inl began ↦ rw began (refl, refl)
          | inr failed ↦ rw failed (refl, refl)
        ]

cycle-Ended :
    (env : Env) (st : Start) (s : CodecMedia) (log : Trace)
    → Loaded s.base_lib
    → Ended s (cycle env st s log)
unfolding start_codec_recver stop_codec_recver load_and_convert load_base_lib call_base Receiver.new
    Receiver.create_codec Receiver.start_video Receiver.stop_video Receiver.de_init Receive.new
    Receive.init_session Receive.register_callback Receive.start_thread Receive.stop_thread
    Receive.deinit_session run request_exit set_defaults
cycle-Ended env st s log (loaded, converts) =
    let before = log ++ (codec convert_key_value ∷ []) in
    elim (Bool-cases (is_neg (env.status (before ++ (session (create 8000 true st.port) ∷ []))))) [
      | inl failed ↦
          rw (loaded, converts, failed) (started-Ended env false (fresh st.port false) s _)
      | inr made ↦ rw (loaded, converts, made) (started-Ended env false (fresh st.port true) s _)
    ]

cycles-after :
    (env : Env) (starts : List Start) (s : CodecMedia) (o : Outcome CodecMedia Bool)
    → Ended s o
    → ((t : CodecMedia) (log : Trace) → t ≡ idle s → Ended t (cycles env starts t log))
    → Ended s (after o (λ _. cycles env starts))
cycles-after env starts s crash h rest = h
cycles-after env starts s (done r t log) (h, same) rest =
    go (cycles env starts t log) (rest t log same)
  where
    go : (o : Outcome CodecMedia Bool) → Ended t o → Ended s o
    go crash e = e
    go (done r u l) (e, same') = (e, same' ∙ ap idle same)

-- When the codec library is loaded and none of its eight functions is NULL, receivers may be started
-- and stopped any number of times, with no packet in between, whatever the sessions, the codec and
-- `pthread_create` return: no call goes through NULL, true is returned, and afterwards there is no
-- receiver and everything else is as before.
pub cycles-Ended :
    (env : Env) (starts : List Start) (s : CodecMedia) (log : Trace)
    → Complete s.base_lib
    → s.receiver ≡ none
    → Ended s (cycles env starts s log)
cycles-Ended env [] s log lib none_there = (refl, ap (with_receiver s) none_there)
cycles-Ended env (st ∷ starts) s log lib none_there =
    cycles-after env starts s (cycle env st s log)
      (cycle-Ended env st s log (lib.0, seventh s.base_lib.functions lib.1))
      (λ t l same.
        cycles-Ended env starts t l (subst (λ t. Complete t.base_lib) (sym same) lib)
          (ap (λ t. t.receiver) same))
