-- ===== src/Examples/Codecs.antt =====
-- The theorems on the codec library, with a MediaCodec of one buffer in each direction.
use greatone.Base.{
  ℕ, ◌≡◌, refl, Bool, true, false, Option, none, some, List, [], ◌∷◌, ◌++◌, ℤ, pos, negsuc, ltb,
  length, if◌then◌else◌, arith,
}
use greatone.World.{
  Call, session, codec, camera, media, device, service, system, media_create, media_configure,
  media_start, media_stop, get_buffers, dequeue_input, copy_in, queue_input, dequeue_output,
  on_buffer, release_output, Trace,
}
use greatone.World.History.{replay}
use greatone.CommonThread.{is_zero}
use greatone.Codec.{
  MediaEnv, CodecBase, codec_create, register_call, start, stop, add, turn, ApiCall, serve_all,
}
use greatone.Codec.Drain.{Ends, drain-Ends}
use greatone.Codec.Granted.{update, InputsGranted, OutputsGranted}
use greatone.Codec.Service.{Serves, serve_all-Serves}

-- One output, and no more.
abbrev one_output : MediaEnv
one_output = record {
  calls = record {
    status = λ log. if ltb (length log) 3 then pos 0 else negsuc 0;
    address = λ log. 0;
    inet_addr = λ text. 0;
  };
  index = λ log. 0;
  size = λ log. 5;
  flags = λ log. 1;
  buffers = λ log. some 8 ∷ [];
  capacity = λ address. 100;
}

abbrev started : CodecBase
started = record {
  inputs = some (some 8 ∷ []);
  outputs = some (some 16 ∷ []);
  has_callback = true;
  count = 0;
}

drain-Ends_example : Ends one_output started 1 3 []
drain-Ends_example = drain-Ends one_output started 1 3 [] (λ l given. (16, refl)) refl (omega arith)

-- Whether the buffers of a direction are given out, after a call.
abbrev given_after : (input given : Bool) → Call → Bool
given_after input given (media (media_create encoder)) = false
given_after input given (media media_stop) = false
given_after true given (media (get_buffers true)) = true
given_after false given (media (get_buffers false)) = true
given_after input given _ = given

abbrev given : (input before : Bool) → Trace → Bool
given input before [] = before
given input before (c ∷ cs) = given input (given_after input before c) cs

abbrev decide : (inputs outputs : Bool) → Call → ℤ
decide inputs outputs (media dequeue_input) = if inputs then pos 0 else negsuc 0
decide inputs outputs (media dequeue_output) = if outputs then pos 0 else negsuc 0
decide inputs outputs _ = pos 0

abbrev answer : (inputs outputs : Bool) → Trace → ℤ
answer inputs outputs [] = pos 0
answer inputs outputs (c ∷ []) = decide inputs outputs c
answer inputs outputs (c ∷ d ∷ cs) =
    answer (given_after true inputs c) (given_after false outputs c) (d ∷ cs)

-- A MediaCodec that has a buffer whenever it gave one out.
abbrev ready : MediaEnv
ready = record one_output {
  calls = record { status = answer false false; address = λ log. 0; inet_addr = λ text. 0 };
}

answer-append :
    (i o : Bool) (log : Trace) (c : Call)
    → answer i o (log ++ (c ∷ [])) ≡ decide (given true i log) (given false o log) c
answer-append i o [] c = refl
answer-append i o (x ∷ []) c = refl
answer-append i o (x ∷ y ∷ cs) c =
    answer-append (given_after true i x) (given_after false o x) (y ∷ cs) c

abbrev held : Bool → Option (List (Option ℕ))
held b = if b then some (some 8 ∷ []) else none

held-get_buffers :
    (d : Bool) (b : Bool) (before : Trace)
    → (if is_zero (answer false false (before ++ (media (get_buffers d) ∷ [])))
        then some (some 8 ∷ [])
        else held b)
      ≡ some (some 8 ∷ [])
held-get_buffers d b before = rw (answer-append false false before (media (get_buffers d))) refl

update-held :
    (input b : Bool) (before : Trace) (c : Call)
    → update ready input (held b) (before ++ (c ∷ [])) c ≡ held (given_after input b c)
update-held input b before (session c) = refl
update-held input b before (codec c) = refl
update-held input b before (camera c) = refl
update-held input b before (system c) = refl
update-held input b before (device c) = refl
update-held input b before (service c) = refl
update-held input b before (media (media_create e)) = refl
update-held input b before (media (media_configure f s)) = refl
update-held input b before (media media_start) = refl
update-held input b before (media media_stop) = refl
update-held input b before (media dequeue_input) = refl
update-held input b before (media (copy_in a bytes)) = refl
update-held input b before (media (queue_input i l)) = refl
update-held input b before (media dequeue_output) = refl
update-held input b before (media (on_buffer a z f)) = refl
update-held input b before (media (release_output i)) = refl
update-held true b before (media (get_buffers true)) = held-get_buffers true b before
update-held false b before (media (get_buffers false)) = held-get_buffers false b before
update-held true b before (media (get_buffers false)) = refl
update-held false b before (media (get_buffers true)) = refl

granted-held :
    (input b : Bool) (before log : Trace)
    → replay (update ready input) (held b) before log ≡ held (given input b log)
granted-held input b before [] = refl
granted-held input b before (c ∷ cs) =
    rw (update-held input b before c)
      (granted-held input (given_after input b c) (before ++ (c ∷ [])) cs)

decided : (b : Bool) → is_zero (if b then pos 0 else negsuc 0) ≡ true → b ≡ true
decided true h = refl
decided false h = h

ready-inputs : InputsGranted ready 100
ready-inputs log free =
    let b =
      decided (given true false log)
        (rw⁻¹ (answer-append false false log (media dequeue_input)) free) in
    (8, rw (granted-held true false [] log, b) refl, omega arith, omega arith)

ready-outputs : OutputsGranted ready
ready-outputs log output =
    let b =
      decided (given false false log)
        (rw⁻¹ (answer-append false false log (media dequeue_output)) output) in
    (8, rw (granted-held false false [] log, b) refl)

abbrev some_calls : List ApiCall
some_calls =
    add [] (pos 0)
    ∷ codec_create (pos 1) false true
    ∷ register_call
    ∷ start
    ∷ add (1 ∷ 2 ∷ []) (pos 2)
    ∷ turn 2
    ∷ codec_create (pos 1) false true
    ∷ stop
    ∷ turn 2
    ∷ []

serve_all-Serves_example : Serves ready 2 (serve_all ready some_calls none [])
serve_all-Serves_example =
    serve_all-Serves ready 100 some_calls ready-inputs ready-outputs
      (omega arith, omega arith, (omega arith, omega arith, tt)) (omega arith)
