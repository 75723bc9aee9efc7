-- ===== src/CodecReceiver.antt =====
-- The class CodecReceiver of Media/CodecReceiver.cpp: what an RtpReceive receives goes to the
-- decoder. The functions of the codec library are taken to be loaded.
pub mod Mime
pub mod Life
pub mod Served
use greatone.Base.{
  ℕ, zero, suc, Bool, true, false, Option, none, some, List, [], ◌∷◌, ◌++◌, ◌==◌, ℤ, pos,
  if◌then◌else◌, length,
}
use greatone.World.{
  codec, codec_create, start_codec, stop_codec, add_codec_buffer, Env, Prog, Outcome, done, crash,
  ret, ◌>>=◌, ◌>>◌, get, put, tell,
}
use greatone.CommonThread.{within}
use greatone.Receive.Defs as Receive
use greatone.Receive.Defs.{RtpReceive, init_session, register_callback, deinit_session}

-- `MIME_H264`, with its 0.
unfoldable pub mime_h264 : List ℕ
mime_h264 = 104 ∷ 50 ∷ 54 ∷ 52 ∷ 0 ∷ []

-- `0 == strcmp(a, b)`, where `b` is a whole string with its 0 and `a` the memory at a pointer;
-- `none` when it reads behind `a`.
unfoldable pub str_equal : List ℕ → List ℕ → Option Bool
str_equal mem [] = some true
str_equal [] (b ∷ bs) = none
str_equal (a ∷ mem) (b ∷ bs) = let rest = str_equal mem bs in if a == b then rest else some false

-- `mpReceive` is an RtpReceive or NULL.
pub record CodecReceiver : Type 0 where
  pub running : Bool
  pub receive : Option RtpReceive

-- The constructor.
unfoldable pub new : CodecReceiver
new = record { running = false; receive = none }

-- A call of a method of `mpReceive`.
abbrev on_receive : {A : Type 0} → Prog RtpReceive A → Prog CodecReceiver A
on_receive p s log = elim s.receive [
  | none ↦ crash
  | some receive ↦ within (λ _. receive) (λ t r. record t { receive = some r }) p s log
]

module _ (env : Env) where
  -- `CreateCodec`; `surface` says whether there is one.
  unfoldable pub create_codec : (surface : Bool) → (flags port : ℤ) → Prog CodecReceiver Bool
  create_codec surface flags port = do
    s ← get
    put (record s { receive = some Receive.new })
    inited ← on_receive (init_session env port)
    if inited then on_receive (register_callback true) else ret tt
    tell (codec (codec_create flags surface false))
    ret true

  -- `StartVideo`.
  unfoldable pub start_video : Prog CodecReceiver Bool
  start_video = do tell (codec start_codec); on_receive (Receive.start_thread env); ret true

-- `StopVideo`.
unfoldable pub stop_video : Prog CodecReceiver Bool
stop_video = do on_receive Receive.stop_thread; tell (codec stop_codec); ret true

-- `DeInit`.
unfoldable pub de_init : Prog CodecReceiver Bool
unfolding stop_video
de_init = do
  stop_video
  on_receive deinit_session
  s ← get
  put (record s { receive = none })
  ret true

-- `ReceiveSource`; `mime` is the memory at `mimeType`, or NULL.
unfoldable pub receive_source :
    (mime : Option (List ℕ)) → (buffer : List ℕ) → (len : ℤ) → Prog CodecReceiver (Unit {0})
receive_source none buffer len s log = crash
receive_source (some mime) buffer len s log = elim (str_equal mime mime_h264) [
  | none ↦ crash
  | some true ↦ tell (codec (add_codec_buffer buffer len)) s log
  | some false ↦ ret tt s log
]
