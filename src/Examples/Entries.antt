-- ===== src/Examples/Entries.antt =====
-- The theorems on the entry points, with a library whose functions are all there.
use greatone.Base.{pos, negsuc, true, false, List, [], ◌∷◌, ◌≡◌, refl, replicate}
use greatone.World.{Env, crash, ◌>>◌}
use greatone.Loader as Loader
use greatone.Loader.{Lib}
use greatone.CodecMedia.{new, start_codec_sender, stop_codec_sender}
use greatone.CodecMedia.Receiving.{Start, cycles, Ended, cycles-Ended}
use greatone.CodecMedia.Sending.{SaysReady, start_codec_sender-SaysReady}

abbrev refusing : Env
refusing = record { status = λ log. negsuc 0; address = λ log. 4096; inet_addr = λ text. 0 }

abbrev base_loaded : Lib
base_loaded = record { handle = 7; functions = replicate 8 4096 }

abbrev two_starts : List Start
two_starts =
    record { sdk = 22; surface = true; flags = pos 0; port = pos 5000 }
    ∷ record { sdk = 22; surface = false; flags = pos 0; port = pos 5002 }
    ∷ []

cycles-Ended_example :
    Ended (new base_loaded Loader.new) (cycles refusing two_starts (new base_loaded Loader.new) [])
unfolding new
cycles-Ended_example =
    cycles-Ended refusing two_starts (new base_loaded Loader.new) [] (refl, (refl, refl)) refl

start_codec_sender-SaysReady_example :
    SaysReady (
      (start_codec_sender refusing 22 true (pos 1) (49 ∷ []) (pos 4000) (pos 4002)
          >> start_codec_sender refusing 23 false (pos 1) (50 ∷ []) (pos 4004) (pos 4006))
        (new base_loaded Loader.new)
        [])
    × ((start_codec_sender refusing 22 true (pos 1) (49 ∷ []) (pos 4000) (pos 4002)
            >> stop_codec_sender)
          (new base_loaded Loader.new)
          []
        ≡ crash)
unfolding new
start_codec_sender-SaysReady_example =
    start_codec_sender-SaysReady refusing 22 23 true false (pos 1) (pos 1) (49 ∷ []) (50 ∷ [])
      (pos 4000) (pos 4002) (pos 4004) (pos 4006) (new base_loaded Loader.new) [] (refl, refl) refl
      refl refl
