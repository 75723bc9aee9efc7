-- ===== src/SenderMedia.antt =====
-- The entry points of SenderLIib/SenderMedia.cpp for the Java side: one RtpSender in a static pointer.
pub mod Session
use greatone.Base.{
  ℕ, Bool, true, false, Option, none, some, List, [], ◌∷◌, ℤ, pos, to_short, length,
}
use greatone.World.{Env, Prog, Outcome, done, crash, ret, after}
use greatone.CodecReceiver.{mime_h264}
use greatone.RtpSender.Defs.{
  RtpSender, new, init_session, connect, deinit_session, send_buffer_header,
}

-- `mpSender`, an RtpSender or NULL.
abbrev pub Media : Type 0
Media = Option RtpSender

-- What a method left in the object stays there; the entry point returns a value of its own.
abbrev pub kept : (Bool → Bool) → Outcome RtpSender Bool → Outcome Media Bool
kept result (done r x log) = done (result r) (some x) log
kept result crash = crash

-- The object is deleted.
abbrev pub dropped : Outcome RtpSender Bool → Outcome Media Bool
dropped (done r x log) = done true none log
dropped crash = crash

module _ (env : Env) where
  -- `SenderCreate`.
  unfoldable pub sender_create : (port : ℤ) → Prog Media Bool
  sender_create port none log = kept (λ r. r) (init_session env (to_short port) new log)
  sender_create port (some x) log = kept (λ r. r) (init_session env (to_short port) x log)

  -- `SenderConnect`: the result of `connect` is not returned.
  unfoldable pub sender_connect : (ip : List ℕ) → (port : ℤ) → Prog Media Bool
  sender_connect ip port none log = done false none log
  sender_connect ip port (some x) log = kept (λ r. false) (connect env ip (to_short port) x log)

  -- `SenderByteArray`.
  unfoldable pub sender_byte_array : (frame : List ℕ) → (len : ℤ) → Prog Media Bool
  sender_byte_array frame len none log = done false none log
  sender_byte_array frame len (some x) log =
      kept (λ r. true) (send_buffer_header env frame len mime_h264 (pos (length mime_h264)) x log)

-- `SenderDestroy`.
unfoldable pub sender_destroy : Prog Media Bool
sender_destroy none log = done false none log
sender_destroy (some x) log = dropped (deinit_session x log)

-- The calls from the Java side.
pub data Entry : Type 0 where
  create_entry : (port : ℤ) → Entry
  connect_entry : List ℕ → ℤ → Entry
  byte_array_entry : List ℕ → ℤ → Entry
  destroy_entry : Entry

unfoldable pub enter : Env → Entry → Prog Media Bool
enter env (create_entry port) = sender_create env port
enter env (connect_entry ip port) = sender_connect env ip port
enter env (byte_array_entry frame len) = sender_byte_array env frame len
enter env destroy_entry = sender_destroy

-- The calls one after the other.
unfoldable pub enter_all : Env → List Entry → Prog Media Bool
enter_all env [] s log = done true s log
enter_all env (e ∷ es) s log = after (enter env e s log) (λ r. enter_all env es)
