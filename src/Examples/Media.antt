-- ===== src/Examples/Media.antt =====
-- The theorems on senders, receivers, files and loaders, at short frames and buffers.
use greatone.Base.{
  ℕ, ◌≡◌, refl, sym, ◌∙◌, take, true, false, none, some, List, [], ◌∷◌, ◌++◌, pos, negsuc, arith,
  length, replicate, length-replicate,
}
use greatone.World.{crash, Env, Trace, Call, system, dlsym, dlerror, done}
use greatone.World.History.{replay}
use greatone.FileCodec.Bytes.{int_to_bytes}
use greatone.FileCodec.Overrun.{thread_loop-overrun}
use greatone.FileCodec.Decoder as Decoder
use greatone.FileCodec.RoundTrip.{
  record_all, recorder, play, player, delivered, file_of, play-record_all,
}
use greatone.RtpSender.Defs as Rtp
use greatone.RtpSender.Defs.{RtpSender, send_packetsize}
use greatone.RtpSender.Fragments.{send_buffer_ex, send_buffer_ex1}
use greatone.RtpSender.Payload.{send_buffer_ex-Sends, send_buffer_ex1-Sends}
use greatone.RtpSender.Packets.{Sends}
use greatone.RtpSender.Protocol.{perform_all, EndsAll, perform_all-new}
use greatone.RtpSender.Monitor.{init, link, unlink, deinit, send}
use greatone.CodecSender as Sender
use greatone.CodecSender.Life as SenderLife
use greatone.CodecSender.Life.{create-de_init-Ended, create-de_init-crash}
use greatone.Receive.Defs.{Packet, thread_loop}
use greatone.Receive.Delivery.{received, deleted, thread_loop-delivers}
use greatone.Loader as Loader
use greatone.Loader.{Lib, library_number, load_camera_lib, load_base_lib}
use greatone.Loader.Laws.{pending_step, Reports, BaseLoaded, load_base_lib-BaseLoaded}
use greatone.SenderMedia.{
  Entry, create_entry, connect_entry, byte_array_entry, destroy_entry, enter_all,
}
use greatone.SenderMedia.Session.{MediaEnds, enter_all-MediaEnds}
use greatone.FileCodec.Decoder.{FileDeCodec}
use greatone.FileCodec.Bytes.{int_to_bytes}
use greatone.FileCodec.Cut.{stale, play-cut}

abbrev bytes3 : List ℕ
bytes3 = 5 ∷ 6 ∷ 7 ∷ []

abbrev frames : List (List ℕ)
frames = bytes3 ∷ [] ∷ (9 ∷ []) ∷ []

play-record_all_example :
    (bytes : List ℕ) × (record_all frames (recorder false []) []
      ≡ done tt (recorder false bytes) [])
    × (s : FileDeCodec) × (calls : Trace) × (play 3 (player bytes [] []) [] ≡ done tt s calls)
    × (delivered calls ≡ frames)
    × (s.file ≡ some [])
    × (s.running ≡ true)
play-record_all_example =
    play-record_all frames false [] [] [] [] (omega arith, (omega arith, (omega arith, tt)))

-- Behind the frames the length 4, but only one byte.
play-cut_example :
    (s : FileDeCodec) × (calls : Trace) × (play 3
        (player (file_of frames ++ (int_to_bytes (pos 4) ++ (8 ∷ []))) [] [])
        []
      ≡ done tt s calls)
    × (delivered calls ≡ frames)
    × (t : FileDeCodec) × ((log : Trace)
        → (Decoder.thread_loop s log ≡ done true t (log ++ stale 4 (8 ∷ []) s.frame_data))
          × (Decoder.thread_loop t log ≡ done true t log))
play-cut_example =
    play-cut frames 4 (8 ∷ []) [] [] [] (omega arith, (omega arith, (omega arith, tt)))
      (omega arith) (omega arith)

-- An environment where every call succeeds.
abbrev fine : Env
fine = record { status = λ log. pos 0; address = λ log. 1; inet_addr = λ ip. 1 }

perform_all-new_example : EndsAll fine (
    perform_all fine
      (init (pos 8000)
        ∷ link bytes3 (pos 9000)
        ∷ send bytes3 (pos 3) (pos 0)
        ∷ deinit
        ∷ unlink
        ∷ [])
      Rtp.new
      [])
perform_all-new_example =
    perform_all-new fine (
      init (pos 8000) ∷ link bytes3 (pos 9000) ∷ send bytes3 (pos 3) (pos 0) ∷ deinit ∷ unlink ∷ [])

abbrev shut_lib : Lib
shut_lib = record { handle = 0; functions = [] }

-- An environment where every library and function is found, and `dlerror` has nothing to say.
abbrev answer : Call → ℕ
answer (system dlerror) = 0
answer _ = 4096

abbrev last_answer : Trace → ℕ
last_answer [] = 0
last_answer (c ∷ []) = answer c
last_answer (c ∷ d ∷ cs) = last_answer (d ∷ cs)

abbrev complete : Env
complete = record { status = λ log. pos 0; address = last_answer; inet_addr = λ ip. 1 }

last_answer-append : (log : Trace) (c : Call) → last_answer (log ++ (c ∷ [])) ≡ answer c
last_answer-append [] c = refl
last_answer-append (b ∷ []) c = refl
last_answer-append (b ∷ d ∷ log) c = last_answer-append (d ∷ log) c

none_pending : (before cs : Trace) → replay (pending_step complete) false before cs ≡ false
none_pending before [] = refl
none_pending before (system (dlsym handle symbol) ∷ cs) =
    rw (last_answer-append before (system (dlsym handle symbol)))
      (none_pending (before ++ (system (dlsym handle symbol) ∷ [])) cs)
none_pending before (c ∷ cs) = none_pending (before ++ (c ∷ [])) cs

complete-Reports : Reports complete
complete-Reports log pends = let wrong = sym pends ∙ none_pending [] log in cc

load_base_lib-BaseLoaded_example :
    BaseLoaded true false shut_lib [] (load_base_lib complete 22 shut_lib [])
unfolding library_number
load_base_lib-BaseLoaded_example = load_base_lib-BaseLoaded complete 22 shut_lib [] complete-Reports

create-de_init-Ended_example :
    SenderLife.Ended
      (SenderLife.life fine 23 true (pos 0) (pos 8000) (pos 1) (Sender.new shut_lib) [])
create-de_init-Ended_example =
    create-de_init-Ended fine 23 true (pos 0) (pos 8000) (pos 1) shut_lib [] refl refl
      (λ before handle symbol e. cc)

-- An environment where every status is an error.
abbrev failing : Env
failing = record { status = λ log. negsuc 0; address = λ log. 1; inet_addr = λ ip. 1 }

create-de_init-crash_example :
    SenderLife.life failing 23 true (pos 0) (pos 8000) (pos 1) (Sender.new Loader.new) [] ≡ crash
create-de_init-crash_example =
    create-de_init-crash failing 23 true (pos 0) (pos 8000) (pos 1) [] refl

abbrev packet : List ℕ → Packet
packet payload = record { timestamp = 1; extension = none; payload = payload }

abbrev passes : List (List (List Packet))
passes = ((packet bytes3 ∷ packet [] ∷ []) ∷ (packet (8 ∷ []) ∷ []) ∷ []) ∷ [] ∷ []

thread_loop-delivers_example :
    (received (thread_loop true 20 passes) ≡ packet bytes3 ∷ packet (8 ∷ []) ∷ [])
    × (deleted (thread_loop true 20 passes) ≡ packet bytes3 ∷ packet [] ∷ packet (8 ∷ []) ∷ [])
thread_loop-delivers_example = thread_loop-delivers passes 20 (omega arith)

unfoldable long_buffer : List ℕ
long_buffer = replicate 36001 0

length-long_buffer : length long_buffer ≡ 36001
unfolding long_buffer
length-long_buffer = length-replicate {A = ℕ} 36001 0

-- One byte more than a packet holds.
send_buffer_ex-Sends_example :
    Sends send_packetsize
      (send_buffer_ex long_buffer (pos 36001) (pos 0))
      true
      Rtp.new
      []
      (take 36001 long_buffer)
send_buffer_ex-Sends_example =
    send_buffer_ex-Sends 36001 long_buffer (pos 0) Rtp.new [] (omega (arith, length-long_buffer))

send_buffer_ex1-Sends_example :
    Sends send_packetsize
      (send_buffer_ex1 long_buffer (pos 36001))
      true
      Rtp.new
      []
      (take 36001 long_buffer)
send_buffer_ex1-Sends_example =
    send_buffer_ex1-Sends 36001 long_buffer Rtp.new [] (omega (arith, length-long_buffer))
      (omega arith)

-- A sender is created twice, used, and destroyed twice.
abbrev entries : List Entry
entries =
    connect_entry bytes3 (pos 9)
    ∷ create_entry (pos 8000)
    ∷ create_entry (pos 8000)
    ∷ connect_entry bytes3 (pos 9)
    ∷ byte_array_entry bytes3 (pos 3)
    ∷ destroy_entry
    ∷ destroy_entry
    ∷ []

enter_all-MediaEnds_example : MediaEnds fine (enter_all fine entries none [])
enter_all-MediaEnds_example = enter_all-MediaEnds fine entries

unfoldable long_file : List ℕ
long_file = replicate 1000001 0

length-long_file : length long_file ≡ 1000001
unfolding long_file
length-long_file = length-replicate {A = ℕ} 1000001 0

thread_loop-overrun_example :
    Decoder.thread_loop (player (int_to_bytes (negsuc 0) ++ long_file) [] []) [] ≡ crash
thread_loop-overrun_example =
    thread_loop-overrun (negsuc 0) long_file [] [] [] (omega arith) (omega arith)
      (omega (arith, length-long_file))
