-- ===== src/Stream/Film.antt =====
-- The way of a camera frame from Android's camera service through the camera library
-- (Media/Camera/CameraListen.cpp) and a CodecSender (Media/CodecSender.cpp) to the encoder.
use greatone.Base.{ℕ, List, [], ◌∷◌, ◌++◌, pos, negsuc}
use greatone.World.{service, video_frame, codec, add_codec_buffer, Trace, Prog, ret, ◌>>◌, tell}
use greatone.CodecSender.{CodecSender, video_source}

-- What the callback `VideoSource` does for the frames that the camera library shows. `memory` is what
-- stands at an address, given the calls so far. A frame of a negative length has no chroma to change.
unfoldable pub film :
    (memory : Trace → ℕ → List ℕ) (before calls : Trace) → Prog CodecSender (Unit {0})
film memory before [] = ret tt
film memory before (service (video_frame base (pos len)) ∷ calls) =
    let shown = before ++ (service (video_frame base (pos len)) ∷ []) in
    video_source (memory shown base) len >> film memory shown calls
film memory before (service (video_frame base (negsuc n)) ∷ calls) =
    let shown = before ++ (service (video_frame base (negsuc n)) ∷ []) in
    tell (codec (add_codec_buffer (memory shown base) (negsuc n))) >> film memory shown calls
film memory before (c ∷ calls) = film memory (before ++ (c ∷ [])) calls
