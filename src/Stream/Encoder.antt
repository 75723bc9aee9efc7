-- ===== src/Stream/Encoder.antt =====
-- Camera frames come to the encoder.
use greatone.Base.{
  ℕ, ◌+◌, ◌*◌, ◌^◌, ◌<◌, ◌≡◌, ◌≢◌, refl, sym, ap, subst, ◌∙◌, Bool, true, Option, some, List, [],
  ◌∷◌, ◌++◌, pos, arith, length, append_assoc, append-nil, length-append, ne→==_false,
  of_word_small,
}
use greatone.World.{
  service, video_frame, set_preview_flags, barcode_scanner, codec, add_codec_buffer, Trace, Outcome,
  done,
}
use greatone.Codec.{MediaEnv, CodecBase, serve_all}
use greatone.CodecReceiver.Served.{requests}
use greatone.CodecSender.{CodecSender, video_source}
use greatone.CodecSender.Frame.{
  nv21_to_nv12, swap_pairs, is_paired, nv21_to_nv12-swaps, length-swap_pairs,
}
use greatone.CameraApi as CameraApi
use greatone.CameraApi.{
  ServiceEnv, JniCameraListen, CameraEntry, post, enter_camera, enter_cameras, post_data,
  show_posted, call_service,
}
use greatone.Stream.Film.{film}
use greatone.Stream.Queued.{Fed, Ready, add_all, AllShort, add_all-given}

-- A picture in NV21 at an address: the luminance, and the chroma plane of pairs.
pub record Picture : Type 0 where
  pub base : ℕ
  pub luma : List ℕ
  pub chroma : List ℕ

abbrev pub size : Picture → ℕ
size p = length p.luma + length p.chroma

-- It does not stand at NULL, its chroma plane is half as long as the luminance and consists of
-- pairs, and it has fewer than 2^30 bytes, so that twice its length is an `int`.
abbrev pub IsPicture : Picture → Type 0
IsPicture p =
    (p.base ≢ 0)
    × (length p.luma ≡ length p.chroma * 2)
    × (is_paired p.chroma ≡ true)
    × (size p < 2 ^ 30)

-- A camera and a callback are there.
abbrev pub open_listen : JniCameraListen
open_listen = record { camera = true; has_callback = true }

abbrev pub posts : List Picture → List CameraEntry
posts [] = []
posts (p ∷ ps) = post true p.base ∷ posts ps

-- The calls by which a picture is shown.
abbrev pub shown : Trace → Picture → Trace
shown log p = log ++ (service (video_frame p.base (pos (size p))) ∷ [])

abbrev pub passed : Trace → Picture → Trace
passed log p = shown log p ++ (service (set_preview_flags barcode_scanner) ∷ [])

-- The service posts the pictures one after the other: when one is posted it has its size, and when it
-- is shown it stands at its address.
abbrev pub Posted : ServiceEnv → (Trace → ℕ → List ℕ) → List Picture → Trace → Type 0
Posted env memory [] log = Unit {0}
Posted env memory (p ∷ ps) log =
    IsPicture p
    × (env.size log ≡ size p)
    × (memory (shown log p) p.base ≡ p.luma ++ p.chroma)
    × Posted env memory ps (passed log p)

abbrev pub calls_of : List Picture → Trace
calls_of [] = []
calls_of (p ∷ ps) =
    service (video_frame p.base (pos (size p)))
    ∷ service (set_preview_flags barcode_scanner)
    ∷ calls_of ps

-- The pictures with each pair of chroma bytes exchanged.
abbrev pub converted : List Picture → List (List ℕ)
converted [] = []
converted (p ∷ ps) = (p.luma ++ swap_pairs p.chroma) ∷ converted ps

abbrev queued : List Picture → Trace
queued [] = []
queued (p ∷ ps) =
    codec (add_codec_buffer (p.luma ++ swap_pairs p.chroma) (pos (size p))) ∷ queued ps

module _ (env : ServiceEnv) (four : Bool) (memory : Trace → ℕ → List ℕ) where
  post_data-shows :
      (p : Picture) (log : Trace)
      → IsPicture p
      → env.size log ≡ size p
      → post_data env true p.base open_listen log ≡ done tt open_listen (passed log p)
  unfolding post_data show_posted call_service
  post_data-shows p log (real, half, paired, small) sized =
      rw (ne→==_false p.base 0 real, sized, of_word_small (size p) (omega arith))

  enter_cameras-shows :
      (ps : List Picture) (log : Trace)
      → Posted env memory ps log
      → enter_cameras env four (posts ps) (some open_listen) log
        ≡ done tt (some open_listen) (log ++ calls_of ps)
  unfolding enter_cameras enter_camera
  enter_cameras-shows [] log posted = rw (append-nil log)
  enter_cameras-shows (p ∷ ps) log (picture, sized, stands, posted) =
      rw (post_data-shows p log picture sized, CameraApi.on_context)
        (enter_cameras-shows ps (passed log p) posted
          ∙ ap (λ (l : Trace). done tt (some open_listen) l)
              (append_assoc (shown log p) (service (set_preview_flags barcode_scanner) ∷ [])
                  (calls_of ps)
                ∙ append_assoc log (service (video_frame p.base (pos (size p))) ∷ [])
                    (service (set_preview_flags barcode_scanner) ∷ calls_of ps)))

video_source-converts :
    (p : Picture) (s : CodecSender) (log : Trace)
    → IsPicture p
    → video_source (p.luma ++ p.chroma) (size p) s log
      ≡ done tt s
          (log ++ (codec (add_codec_buffer (p.luma ++ swap_pairs p.chroma) (pos (size p))) ∷ []))
unfolding video_source
video_source-converts p s log (real, half, paired, small) =
    let exchanged : nv21_to_nv12 (p.luma ++ p.chroma) (size p)
        ≡ some (p.luma ++ swap_pairs p.chroma) =
      rw (append-nil p.chroma, append-nil (swap_pairs p.chroma)) at
        (nv21_to_nv12-swaps p.luma p.chroma [] (size p) small (omega arith) (omega arith) paired) in
    rw (exchanged, video_source)

film-queues :
    (env : ServiceEnv) (memory : Trace → ℕ → List ℕ) (ps : List Picture) (log : Trace)
    (s : CodecSender) (log' : Trace)
    → Posted env memory ps log
    → film memory log (calls_of ps) s log' ≡ done tt s (log' ++ queued ps)
unfolding film
film-queues env memory [] log s log' posted = rw (append-nil log')
film-queues env memory (p ∷ ps) log s log' (picture, sized, stands, posted) =
    let here : Trace =
      codec (add_codec_buffer (p.luma ++ swap_pairs p.chroma) (pos (size p))) ∷ [] in
    rw (
      stands,
      video_source-converts p s log' picture,
      film-queues env memory ps (passed log p) s (log' ++ here) posted,
      append_assoc log' here (queued ps),
    )

requests-queued : (ps : List Picture) → requests (queued ps) ≡ add_all (converted ps)
requests-queued [] = refl
requests-queued (p ∷ ps) =
    let long : length (p.luma ++ swap_pairs p.chroma) ≡ size p =
      omega (arith, length-append p.luma (swap_pairs p.chroma), length-swap_pairs p.chroma) in
    rw (long, requests-queued ps)

-- The pictures go their way: the calls of the camera library, those of the sender, and the codec
-- library that serves these.
abbrev pub ComesIn :
    (Trace → ℕ → List ℕ)
    → MediaEnv
    → CodecSender
    → CodecBase
    → (before log : Trace) → List (List ℕ)
    → Outcome (Option JniCameraListen) (Unit {0})
    → Type 0
ComesIn memory media_env s t before log bytes result =
    (calls added : Trace) × (result ≡ done tt (some open_listen) (before ++ calls))
    × (film memory before calls s [] ≡ done tt s added)
    × Fed bytes log (serve_all media_env (requests added) (some t) log)

-- Where the camera is connected and has the sender for its callback; the service posts pictures in
-- NV21 of fewer than 2^30 bytes, each at the start of its heap, not at NULL, and unchanged until it is
-- shown, with a chroma plane of pairs, half as long as the luminance; and the MediaCodec of the sender
-- always has a free input buffer that was fetched and that each of them fits in: the pictures, fewer
-- than 2^31 with those given before, are copied into input buffers of that MediaCodec, each once, in
-- order, with the bytes of each chroma pair exchanged and otherwise as they were.
pub enter_cameras-encoded :
    (env : ServiceEnv) (four : Bool) (memory : Trace → ℕ → List ℕ) (media_env : MediaEnv)
    (limit : ℕ) (ps : List Picture) (before : Trace) (s : CodecSender) (t : CodecBase) (log : Trace)
    → Posted env memory ps before
    → Ready media_env limit t.inputs
    → AllShort limit (converted ps)
    → t.count + length (converted ps) < 2 ^ 31
    → ComesIn memory media_env s t before log
        (converted ps)
        (enter_cameras env four (posts ps) (some open_listen) before)
enter_cameras-encoded env four memory media_env limit ps before s t log posted ready all few = (
  calls_of ps,
  queued ps,
  enter_cameras-shows env four memory ps before posted,
  film-queues env memory ps before s [] posted,
  subst (λ calls. Fed (converted ps) log (serve_all media_env calls (some t) log))
      (sym (requests-queued ps)) (add_all-given media_env limit t (converted ps) log ready all few),
)
