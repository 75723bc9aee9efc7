-- ===== src/Receive/Defs.antt =====
-- The class RtpReceive of RtpTrans/RtpReceive.cpp, with `ReceiveSource` of Media/CodecReceiver.cpp,
-- which it calls for each packet.
use greatone.Base.{
  ℕ, zero, suc, Bool, true, false, Option, List, [], ◌∷◌, ◌++◌, ◌==◌, ℤ, pos, is_neg, to_word,
  if◌then◌else◌, length, ltb,
}
use greatone.World.{
  create, add_destination, delete_destination, clear_destinations, bye_destroy, send_packet_ex,
  session, Env, Prog, ret, ◌>>=◌, ◌>>◌, get, put, tell, ask,
}
use greatone.CommonThread as CommonThreads
use greatone.CommonThread.{CommonThread, run, request_exit, within}
use greatone.RtpSender.Defs.{set_defaults, max_packet_size, at_least, ntohl, inaddr_none}

-- `mStreamBase` is a callback or NULL. The class has a flag `mRunning` beside that of its base class
-- `CommonThread`, which is in `thread`.
pub record RtpReceive : Type 0 where
  pub running : Bool
  pub local_port : ℤ
  pub dest_ip : ℕ
  pub dest_port : ℤ
  pub has_callback : Bool
  pub thread : CommonThread

-- The constructor. (`mLocalPort` and `mDestAddr` have no value yet.)
unfoldable pub new : RtpReceive
new = record {
  running = false;
  local_port = pos 0;
  dest_ip = 0;
  dest_port = pos 0;
  has_callback = false;
  thread = CommonThreads.new;
}

module _ (env : Env) where
  -- `initSession`.
  unfoldable pub init_session : (port : ℤ) → Prog RtpReceive Bool
  unfolding set_defaults
  init_session port = do
    s ← get
    put (record s { local_port = port })
    status ← ask env (session (create 8000 true port))
    if is_neg status then ret false else do set_defaults; ret true

  -- `connect`.
  unfoldable pub connect : (ip : List ℕ) → (port : ℤ) → Prog RtpReceive Bool
  connect ip port = if env.inet_addr ip == inaddr_none then ret false else do
    s ← get
    put (record s { dest_ip = ntohl (env.inet_addr ip); dest_port = port })
    status ← ask env (session (add_destination (ntohl (env.inet_addr ip)) port))
    if is_neg status then ret false else ret true

  -- `sendBuffer`.
  unfoldable pub send_buffer : (buff : List ℕ) → ℤ → (header : List ℕ) → ℤ → Prog RtpReceive Bool
  send_buffer buff data_len header words =
      if at_least data_len max_packet_size then ret false else do
        status ← ask env (session (send_packet_ex buff (to_word data_len) 0 header (to_word words)))
        if is_neg status then ret false else ret true

  -- `startThread`; the result of `run` is not looked at.
  unfoldable pub start_thread : Prog RtpReceive Bool
  start_thread = do
    s ← get
    put (record s { running = true })
    within (λ t. t.thread) (λ t thread. record t { thread = thread }) (run env)
    ret true

-- `stopThread`.
unfoldable pub stop_thread : Prog RtpReceive Bool
stop_thread = do
  s ← get
  if s.running
      then (do
        put (record s { running = false })
        within (λ t. t.thread) (λ t thread. record t { thread = thread }) request_exit
        ret true)
      else ret false

-- `deinitSession`.
unfoldable pub deinit_session : Prog RtpReceive Bool
deinit_session = do tell (session (bye_destroy 1)); ret true

-- `registerCallback`.
unfoldable pub register_callback : (present : Bool) → Prog RtpReceive (Unit {0})
register_callback present = do s ← get; put (record s { has_callback = present })

-- `disConnect`.
unfoldable pub disconnect : Prog RtpReceive Bool
disconnect = do
  s ← get
  tell (session (delete_destination s.dest_ip s.dest_port))
  tell (session clear_destinations)
  ret true

-- A packet: its timestamp, its extension data (or NULL), its payload.
pub record Packet : Type 0 where
  pub timestamp : ℕ
  pub extension : Option (List ℕ)
  pub payload : List ℕ

-- What the loop does, in order.
pub data Event : Type 0 where
  begin_data_access end_data_access usleep : Event
  receive_source delete_packet : Packet → Event

-- The tests of `mRunning` that still find it true, the events so far, and whether the loop returned.
pub data Progress : Type 0 where
  progress : (reads : ℕ) → List Event → (returned : Bool) → Progress

abbrev pub emit : List Event → Progress → Progress
emit es (progress k fs r) = progress k (es ++ fs) r

abbrev pub and_then : Progress → (ℕ → Progress) → Progress
and_then (progress k es true) rest = progress k es true
and_then (progress k es false) rest = emit es (rest k)

-- `mRunning && ...`
abbrev pub tested : ℕ → (ℕ → Progress) → Progress
tested zero rest = progress 0 [] false
tested (suc k) rest = rest k

abbrev pub has_payload : Packet → Bool
has_payload p = ltb 0 (length p.payload)

-- The body of the inner loop: a packet without a payload is only deleted, and one with a payload
-- goes to the callback; without a callback, or when `mRunning` was cleared, the loop returns there.
unfoldable pub handle_packet :
    (payload callback : Bool) → (reads : ℕ) → Packet → (ℕ → Progress) → Progress
handle_packet false callback k p rest = emit (delete_packet p ∷ []) (rest k)
handle_packet true false k p rest = progress k [] true
handle_packet true true zero p rest = progress 0 [] true
handle_packet true true (suc k) p rest = emit (receive_source p ∷ delete_packet p ∷ []) (rest k)

-- The inner `while`, over the packets of a source. Another thread may clear `mRunning` at any time:
-- `reads` counts the tests of it that come before.
unfoldable pub next_packets : (callback : Bool) (reads : ℕ) → List Packet → Progress
unfolding handle_packet
next_packets callback zero ps = progress 0 [] false
next_packets callback (suc k) [] = progress k [] false
next_packets callback (suc k) (p ∷ ps) =
    handle_packet (has_payload p) callback k p (λ j. next_packets callback j ps)

-- The `do` loop, over the sources with data.
unfoldable pub next_sources : (callback : Bool) (reads : ℕ) → List (List Packet) → Progress
unfolding next_packets
next_sources callback k [] = progress k [] false
next_sources callback k (ps ∷ sources) =
    and_then (next_packets callback k ps) (λ j. tested j (λ i. next_sources callback i sources))

-- The end of a pass; a return skips it.
abbrev pub end_pass : Progress → (ℕ → List Event) → List Event
end_pass (progress k es true) rest = es
end_pass (progress k es false) rest = es ++ (end_data_access ∷ usleep ∷ rest k)

-- The first passes of `threadLoop`, over what the sources hold in each.
unfoldable pub thread_loop :
    (callback : Bool) (reads : ℕ) → (passes : List (List (List Packet))) → List Event
unfolding next_sources
thread_loop callback zero passes = []
thread_loop callback (suc k) [] = []
thread_loop callback (suc k) (sources ∷ passes) =
    begin_data_access
    ∷ end_pass (next_sources callback k sources) (λ j. thread_loop callback j passes)
