-- ===== src/Examples/Services.antt =====
-- The theorems on the camera library, with a service that connects and one that refuses, and on a
-- receiver with the codec library, with a MediaCodec that has no buffers;
-- and on the older camera library and the older sender.
use greatone.Base.{ℕ, pos, true, false, some, List, [], ◌∷◌}
use greatone.CameraApi.{
  ServiceEnv, new, CameraEntry, setup, release, stop, parameters, preview, orientation, post,
}
use greatone.OldCameraApi.{OldEntry}
use greatone.Codec.{MediaEnv}
use greatone.CodecReceiver as Receiver
use greatone.CodecReceiver.Life as ReceiverLife
use greatone.CodecReceiver.Served.{ServedFree, life-ServedFree}
use greatone.OldSender as Old
use greatone.OldSender.Life as OldLife
use greatone.OldSender.Life.{Ends, life-Ends}

abbrev connecting : (address : ℕ) → ServiceEnv
connecting address = record {
  calls = record { status = λ log. pos 0; address = λ log. address; inet_addr = λ text. 0 };
  size = λ log. 460800;
}

abbrev some_entries : List CameraEntry
some_entries =
    setup true (pos 0)
    ∷ preview true
    ∷ post true 4096
    ∷ parameters (some (1 ∷ []))
    ∷ stop
    ∷ orientation (pos 90)
    ∷ release
    ∷ preview true
    ∷ release
    ∷ setup true (pos 1)
    ∷ []

abbrev some_olds : List OldEntry
some_olds =
    OldEntry.stop
    ∷ OldEntry.setup true (pos 0)
    ∷ OldEntry.parameters (some (1 ∷ []))
    ∷ OldEntry.preview true
    ∷ OldEntry.post true 4096
    ∷ OldEntry.stop
    ∷ OldEntry.setup false (pos 1)
    ∷ OldEntry.release
    ∷ OldEntry.release
    ∷ []

-- No call fails, and no output is ready.
abbrev no_buffers : MediaEnv
no_buffers = record {
  calls = (connecting 64).calls;
  index = λ log. 0;
  size = λ log. 0;
  flags = λ log. 0;
  buffers = λ log. [];
  capacity = λ address. 0;
}

life-ServedFree_example :
    ServedFree no_buffers
      (ReceiverLife.life (connecting 64).calls true (pos 0) (pos 8000) Receiver.new [])
life-ServedFree_example = life-ServedFree (connecting 64).calls no_buffers true (pos 0) (pos 8000)

life-Ends_example :
    Ends true (OldLife.life (connecting 64).calls true (pos 0) (pos 8000) (pos 1) Old.new [])
life-Ends_example = life-Ends (connecting 64).calls true (pos 0) (pos 8000) (pos 1)
