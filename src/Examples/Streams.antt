-- ===== src/Examples/Streams.antt =====
-- The theorems on frames on their way, at one output and at two pictures.
use greatone.Base.{
  zero, suc, ◌+◌, ◌^◌, ◌<◌, ◌≤◌, ltb, length, negsuc, if◌then◌else◌, none, ℕ, false, refl, true,
  some, List, [], ◌∷◌, ◌++◌, pos, arith, append-nil, take,
}
use greatone.World.{Env, Trace}
use greatone.RtpSender.Defs.{RtpSender}
use greatone.Loader.{Lib}
use greatone.CodecReceiver as Receiver
use greatone.Receive.Defs.{Packet}
use greatone.Stream.{Carrier}
use greatone.Stream.Delivered.{sending, AllSendable}
use greatone.Stream.Decoder.{ComesThrough}
use greatone.Stream.Coded.{Delivers, NoNegative, coded, drain-delivers}
use greatone.Codec.Drain.{asked, rounds}
use greatone.Stream.Encoder.{Picture, ComesIn, converted, posts, open_listen, enter_cameras-encoded}
use greatone.Codec.{MediaEnv, CodecBase}
use greatone.CameraApi.{ServiceEnv, enter_cameras}

-- The header data arrive with two bytes behind them.
abbrev plain : Carrier
plain buf len extension words = record {
  timestamp = 0;
  extension = some (extension ++ (1 ∷ 2 ∷ []));
  payload = take len buf;
}

-- One source in one pass.
abbrev in_one : List Packet → List (List (List Packet))
in_one ps = (ps ∷ []) ∷ []

abbrev taking : Env
taking = record { status = λ log. pos 0; address = λ log. 1; inet_addr = λ ip. 1 }

abbrev ready : RtpSender
ready = record {
  local_port = pos 8000;
  inited = true;
  connected = true;
  dest_ip = 1;
  dest_port = pos 9000;
}

abbrev shut : Lib
shut = record { handle = 0; functions = [] }

-- A MediaCodec with one input buffer, which is always free.
abbrev free : MediaEnv
free = record {
  calls = taking;
  index = λ log. 0;
  size = λ log. 0;
  flags = λ log. 0;
  buffers = λ log. [];
  capacity = λ address. 100000;
}

abbrev opened : CodecBase
opened = record { inputs = some (some 8 ∷ []); outputs = none; has_callback = false; count = 0 }

-- One output, and no more.
abbrev one_output : MediaEnv
one_output = record {
  calls = record {
    status = λ log. if ltb (length log) 3 then pos 0 else negsuc 0;
    address = λ log. 0;
    inet_addr = λ text. 0;
  };
  index = λ log. 0;
  size = λ log. 3;
  flags = λ log. 1;
  buffers = λ log. some 8 ∷ [];
  capacity = λ address. 100;
}

abbrev encoding : CodecBase
encoding = record {
  inputs = some (some 8 ∷ []);
  outputs = some (some 16 ∷ []);
  has_callback = true;
  count = 0;
}

abbrev three_bytes : Trace → ℕ → List ℕ
three_bytes log address = 7 ∷ 8 ∷ 9 ∷ []

one_output-fits :
    (j : ℕ)
    → j ≤ 1
    → let calls = asked (rounds one_output encoding j []) in
      NoNegative calls
      × AllSendable (coded three_bytes [] calls)
      × (opened.count + length (coded three_bytes [] calls) < 2 ^ 31)
one_output-fits zero few = (tt, tt, omega arith)
one_output-fits (suc zero) few = (tt, (omega arith, omega arith, tt), omega arith)
one_output-fits (suc (suc j)) few = absurd (omega arith)

drain-delivers_example :
    Delivers one_output encoding 3 taking three_bytes (sending true ready shut) (λ bytes.
      ComesThrough plain in_one free Receiver.new opened [] 3 bytes (sending true ready shut) [])
drain-delivers_example =
    drain-delivers one_output free encoding opened 1 3 three_bytes taking plain in_one true ready
      shut Receiver.new 3 (λ l given. (16, refl)) refl (omega arith) one_output-fits
      (λ before. refl) (λ buf extension len words h. refl)
      (λ buf extension len words h. (1 ∷ 2 ∷ [], refl)) append-nil
      (λ log. (8, refl, refl, omega arith, omega arith)) refl

abbrev picture : Picture
picture = record { base = 64; luma = 1 ∷ 2 ∷ 3 ∷ 4 ∷ []; chroma = 5 ∷ 6 ∷ [] }

abbrev six_bytes : ServiceEnv
six_bytes = record { calls = taking; size = λ log. 6 }

abbrev filmed : Trace → ℕ → List ℕ
filmed log address = 1 ∷ 2 ∷ 3 ∷ 4 ∷ 5 ∷ 6 ∷ []

enter_cameras-encoded_example :
    ComesIn filmed free
      (sending true ready shut)
      opened
      []
      []
      (converted (picture ∷ picture ∷ []))
      (enter_cameras six_bytes false (posts (picture ∷ picture ∷ [])) (some open_listen) [])
enter_cameras-encoded_example =
    enter_cameras-encoded six_bytes false filmed free 100000 (picture ∷ picture ∷ []) []
      (sending true ready shut) opened []
      (
        ((λ e. cc), refl, refl, omega arith),
        refl,
        refl,
        (((λ e. cc), refl, refl, omega arith), refl, refl, tt),
      )
      (λ log. (8, refl, refl, omega arith, omega arith)) (omega arith) (omega arith)
