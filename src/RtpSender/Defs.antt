-- ===== src/RtpSender/Defs.antt =====
-- The operations of RtpSender (RtpTrans/RtpSender.cpp). The session is not part of the state: it is
-- jrtplib's, and every call of it is in the trace.
use Prim.Native.Nat.{◌/◌}
use greatone.Base.{
  ℕ, ◌+◌, ◌-◌, ◌*◌, ◌%◌, ◌^◌, Bool, true, false, not, List, ◌&&◌, ℤ, pos, negsuc, is_neg, to_word,
  ◌==◌, leb, if◌then◌else◌,
}
use greatone.World.{
  create, set_default_payload_type, set_default_mark, set_maximum_packet_size,
  set_default_timestamp_increment, add_destination, delete_destination, clear_destinations,
  bye_destroy, send_packet_as, send_packet_ex, poll, session, Env, Prog, ret, ◌>>=◌, ◌>>◌, get, put,
  tell, ask,
}

-- `MAX_PACKET_SIZE` (Common/ComDefine.h) and `SEND_PACKETSIZE`.
abbrev pub max_packet_size : ℕ
max_packet_size = 64 * 1024 - 1

abbrev pub send_packetsize : ℕ
send_packetsize = 36000

pub record RtpSender : Type 0 where
  pub local_port : ℤ
  pub inited : Bool
  pub connected : Bool
  pub dest_ip : ℕ
  pub dest_port : ℤ

-- The constructor. (`mLocalPort` and `mDestAddr` have no value yet.)
unfoldable pub new : RtpSender
new = record {
  local_port = pos 0;
  inited = false;
  connected = false;
  dest_ip = 0;
  dest_port = pos 0;
}

-- The test `i >= n`.
abbrev pub at_least : ℤ → ℕ → Bool
at_least (pos m) n = leb n m
at_least (negsuc m) n = false

-- `ntohl` on a machine with the low byte first.
unfoldable pub ntohl : ℕ → ℕ
ntohl a = a % 256 * 2 ^ 24 + a / 2 ^ 8 % 256 * 2 ^ 16 + a / 2 ^ 16 % 256 * 2 ^ 8 + a / 2 ^ 24 % 256

abbrev pub inaddr_none : ℕ
inaddr_none = 2 ^ 32 - 1

-- `ERR_RTP_HASHTABLE_ELEMENTALREADYEXISTS`, which is -4.
unfoldable pub is_already_exists : ℤ → Bool
is_already_exists (pos n) = false
is_already_exists (negsuc n) = n == 3

-- The defaults of a session that was created.
unfoldable pub set_defaults : {S : Type 0} → Prog S (Unit {0})
set_defaults = do
  tell (session (set_default_payload_type 96))
  tell (session (set_default_mark true))
  tell (session (set_maximum_packet_size max_packet_size))
  tell (session (set_default_timestamp_increment 1))

module _ (env : Env) where
  -- `initSession`.
  unfoldable pub init_session : ℤ → Prog RtpSender Bool
  unfolding set_defaults
  init_session port = do
    s ← get
    if s.inited then ret false else do
      put (record s { local_port = port })
      status ← ask env (session (create 8000 true port))
      if is_neg status
          then ret false
          else do set_defaults; put (record s { local_port = port; inited = true }); ret true

  -- `connect`.
  unfoldable pub connect : List ℕ → ℤ → Prog RtpSender Bool
  connect ip port = do
    s ← get
    if not s.inited
        then ret s.inited
        else if s.connected
        then ret true
        else if env.inet_addr ip == inaddr_none
        then ret false
        else do
          put (record s { dest_ip = ntohl (env.inet_addr ip); dest_port = port })
          status ← ask env (session (add_destination (ntohl (env.inet_addr ip)) port))
          if is_neg status && not (is_already_exists status) then ret false else do
            put (record s {
              dest_ip = ntohl (env.inet_addr ip);
              dest_port = port;
              connected = true;
            })
            ret true

  -- `Poll` after a packet was sent, in the build without `RTP_SUPPORT_THREAD`.
  unfoldable pub sent : ℤ → Prog RtpSender Bool
  sent status =
      if is_neg status
      then ret false
      else do polled ← ask env (session poll); ret (not (is_neg polled))

  -- `sendBuffer` with header data; `buff` is the memory at the pointer.
  unfoldable pub send_buffer_header : List ℕ → ℤ → (header : List ℕ) → ℤ → Prog RtpSender Bool
  unfolding sent
  send_buffer_header buff data_len header words = do
    s ← get
    if not s.inited
        then ret s.inited
        else if at_least data_len max_packet_size
        then ret false
        else do
          status ←
              ask env (session (send_packet_ex buff (to_word data_len) 0 header (to_word words)))
          sent status

  -- `sendBuffer` without header data.
  unfoldable pub send_buffer : List ℕ → ℤ → (time_stamp : ℤ) → Prog RtpSender Bool
  unfolding sent
  send_buffer buff data_len time_stamp = do
    s ← get
    if not s.inited then ret s.inited else do
      status ←
          ask env (session (send_packet_as buff (to_word data_len) 0 false (to_word time_stamp)))
      sent status

-- `disConnect`.
unfoldable pub disconnect : Prog RtpSender Bool
disconnect = do
  s ← get
  if s.connected
      then (do
        tell (session (delete_destination s.dest_ip s.dest_port))
        tell (session clear_destinations)
        put (record s { connected = false })
        ret true)
      else ret true

-- `deinitSession`.
unfoldable pub deinit_session : Prog RtpSender Bool
unfolding disconnect
deinit_session = do
  s ← get
  if not s.inited then ret s.inited else do
    disconnect
    tell (session (bye_destroy 1))
    t ← get
    put (record t { inited = false })
    ret true
