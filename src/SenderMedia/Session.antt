-- ===== src/SenderMedia/Session.antt =====
-- The session that the entry points of SenderMedia use.
use greatone.Base.{
  to_short, ◌≡◌, refl, Bool, false, none, some, List, [], ◌∷◌, pos, length, Bool-cases, inl, inr,
  ap, ◌∙◌,
}
use greatone.World.{Env, Outcome, done, crash, Trace, after}
use greatone.CodecReceiver.{mime_h264}
use greatone.RtpSender.Defs.{
  RtpSender, new, init_session, connect, disconnect, deinit_session, send_buffer_header,
}
use greatone.RtpSender.Protocol.{perform-Sound, new-Sound}
use greatone.RtpSender.Monitor.{
  monitor, monitor_from, Sound, Ends, perform, init, link, deinit, send_header,
}
use greatone.SenderMedia.{
  Media, kept, dropped, sender_create, sender_connect, sender_byte_array, sender_destroy, Entry,
  create_entry, connect_entry, byte_array_entry, destroy_entry, enter, enter_all,
}

-- Without an object no session stands; with one its flags tell the truth.
abbrev pub MediaSound : Env → Media → Trace → Type 0
MediaSound env none log = monitor env log ≡ some false
MediaSound env (some x) log = Sound env x log

abbrev pub MediaEnds : Env → Outcome Media Bool → Type 0
MediaEnds env (done r s log) = MediaSound env s log
MediaEnds env crash = ⊥

kept-Ends :
    (env : Env) (result : Bool → Bool) (o : Outcome RtpSender Bool)
    → Ends env o
    → MediaEnds env (kept result o)
kept-Ends env result (done r x log) e = e
kept-Ends env result crash e = e

-- After `deinitSession` the sender is not initialised.
abbrev Down : Outcome RtpSender Bool → Type 0
Down (done r s log) = s.inited ≡ false
Down crash = ⊥

deinit_session-Down : (x : RtpSender) (log : Trace) → Down (deinit_session x log)
unfolding deinit_session disconnect
deinit_session-Down x log = elim (Bool-cases x.inited) [
  | inl up ↦ elim (Bool-cases x.connected) [
    | inl linked ↦ rw (up, linked) refl
    | inr apart ↦ rw (up, apart) refl
  ]
  | inr down ↦ rw down refl
]

dropped-Ends :
    (env : Env) (o : Outcome RtpSender Bool) → Ends env o → Down o → MediaEnds env (dropped o)
dropped-Ends env (done r x log) e down = e.session ∙ ap some down
dropped-Ends env crash e down = e

enter-Ends :
    (env : Env) (e : Entry) (s : Media) (log : Trace)
    → MediaSound env s log
    → MediaEnds env (enter env e s log)
unfolding enter sender_create sender_connect sender_byte_array sender_destroy perform
enter-Ends env (create_entry port) none log h =
    kept-Ends env _ (init_session env (to_short port) new log)
      (perform-Sound env (init (to_short port)) new log (new-Sound env log h))
enter-Ends env (create_entry port) (some x) log h =
    kept-Ends env _ (init_session env (to_short port) x log)
      (perform-Sound env (init (to_short port)) x log h)
enter-Ends env (connect_entry ip port) none log h = h
enter-Ends env (connect_entry ip port) (some x) log h =
    kept-Ends env _ (connect env ip (to_short port) x log)
      (perform-Sound env (link ip (to_short port)) x log h)
enter-Ends env (byte_array_entry frame len) none log h = h
enter-Ends env (byte_array_entry frame len) (some x) log h =
    kept-Ends env _ (send_buffer_header env frame len mime_h264 (pos (length mime_h264)) x log)
      (perform-Sound env (send_header frame len mime_h264 (pos (length mime_h264))) x log h)
enter-Ends env destroy_entry none log h = h
enter-Ends env destroy_entry (some x) log h =
    dropped-Ends env (deinit_session x log) (perform-Sound env deinit x log h)
      (deinit_session-Down x log)

enter_all-Ends :
    (env : Env) (es : List Entry) (s : Media) (log : Trace)
    → MediaSound env s log
    → MediaEnds env (enter_all env es s log)
unfolding enter_all
enter_all-Ends env [] s log h = h
enter_all-Ends env (e ∷ es) s log h =
    go (enter env e s log) (enter-Ends env e s log h) (enter_all-Ends env es)
  where
    go :
        (o : Outcome Media Bool)
        → MediaEnds env o
        → ((s' : Media) (log' : Trace)
            → MediaSound env s' log'
            → MediaEnds env (enter_all env es s' log'))
        → MediaEnds env (after o (λ r. enter_all env es))
    go (done r s' log') ends ih = ih s' log' ends
    go crash ends ih = absurd ends

-- Whatever calls come from the Java side, in whatever order, and whatever jrtplib returns: no call
-- goes through NULL, no call of a session is made out of turn, over all the senders that are created
-- and deleted, and while there is no sender no session stands.
pub enter_all-MediaEnds : (env : Env) (es : List Entry) → MediaEnds env (enter_all env es none [])
unfolding monitor monitor_from
enter_all-MediaEnds env es = enter_all-Ends env es none [] refl
