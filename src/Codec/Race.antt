-- ===== src/Codec/Race.antt =====
-- `stopCodec` and the thread of Media/Codec/CodecBase.cpp, which share the arrays and take no lock.
use greatone.Base.{◌≡◌, refl, true}
use greatone.World.{media, dequeue_output, Prog, crash, Trace, ask, ◌>>◌}
use greatone.Codec.{MediaEnv, CodecBase, stop_codec, hand_out}

-- The thread asks for an output, the codec is stopped, and the thread goes on with what it got.
abbrev pub interrupted : MediaEnv → Prog CodecBase (Unit {0})
interrupted env = do ask env.calls (media dequeue_output); stop_codec env; hand_out env

-- With a callback registered, a codec that is stopped after its thread got an output and before the
-- thread looked up the address crashes, whatever MediaCodec returns: the array is gone.
interrupted-crash :
    (env : MediaEnv) (s : CodecBase) (log : Trace)
    → s.has_callback ≡ true
    → interrupted env s log ≡ crash
unfolding stop_codec hand_out
interrupted-crash env s log registered = rw registered refl
