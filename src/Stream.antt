-- ===== src/Stream.antt =====
-- The way of a coded frame from a CodecSender (Media/CodecSender.cpp) through jrtplib and the loop
-- of an RtpReceive (RtpTrans/RtpReceive.cpp) to the decoder of a CodecReceiver
-- (Media/CodecReceiver.cpp). What jrtplib makes of a packet that is sent is a parameter.
pub mod Delivered
pub mod Queued
pub mod Film
pub mod Encoder
pub mod Decoder
pub mod Coded
use greatone.Base.{ℕ, ◌%◌, ◌^◌, List, [], ◌∷◌, ◌++◌, pos, of_word, length}
use greatone.World.{session, send_packet_ex, Trace, Env, Prog, ret, ◌>>=◌, ◌>>◌}
use greatone.CodecSender.{CodecSender, on_codec_buffer}
use greatone.CodecReceiver as Receiver
use greatone.CodecReceiver.{CodecReceiver}
use greatone.Receive.Defs.{
  Packet, Event, begin_data_access, end_data_access, usleep, receive_source, delete_packet,
}

-- `struct CodecBuffer`: the memory at `buf`, and `size`.
pub record Frame : Type 0 where
  pub buf : List ℕ
  pub size : ℕ

-- The calls of `onCodecBuffer` for the frames that come out of the encoder.
unfoldable pub send_frames : Env → List Frame → Prog CodecSender (Unit {0})
send_frames env [] = ret tt
send_frames env (f ∷ fs) = do on_codec_buffer env f.buf (pos f.size); send_frames env fs

-- The packet that arrives for each call of `SendPacketEx`, by what is passed to it.
abbrev pub Carrier : Type 0
Carrier = (buf : List ℕ) (len : ℕ) (extension : List ℕ) (words : ℕ) → Packet

abbrev pub arrivals : Carrier → Trace → List Packet
arrivals carry [] = []
arrivals carry (session (send_packet_ex buf len id extension words) ∷ calls) =
    carry buf len extension words ∷ arrivals carry calls
arrivals carry (_ ∷ calls) = arrivals carry calls

-- The calls of `ReceiveSource` that the loop makes.
unfoldable pub hand_on : List Event → Prog CodecReceiver (Unit {0})
hand_on [] = ret tt
hand_on (receive_source p ∷ es) = do
  Receiver.receive_source p.extension p.payload (of_word (length p.payload % 2 ^ 32))
  hand_on es
hand_on (begin_data_access ∷ es) = hand_on es
hand_on (end_data_access ∷ es) = hand_on es
hand_on (usleep ∷ es) = hand_on es
hand_on (delete_packet p ∷ es) = hand_on es
