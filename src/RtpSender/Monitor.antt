-- ===== src/RtpSender/Monitor.antt =====
-- Which calls of a session may be made when, and what it means that an RtpSender keeps to that.
use greatone.Base.{
  ℕ, ◌≡◌, Bool, true, false, not, Option, none, some, List, [], ◌∷◌, ◌++◌, ℤ, is_neg, if◌then◌else◌,
  append-nil, append_assoc, ◌∙◌, ap,
}
use greatone.World.{
  SessionCall, create, bye_destroy, Call, session, Trace, Env, Prog, Outcome, done, crash,
}
use greatone.RtpSender.Defs.{
  RtpSender, init_session, connect, disconnect, deinit_session, send_buffer_header, send_buffer,
}

-- Whether a call may be made, by whether the session stands: only `Create` may without one, and
-- that only without one.
abbrev pub is_legal : Bool → Call → Bool
is_legal up (session (create hz own port)) = not up
is_legal up (session _) = up
is_legal up _ = true

-- Whether the session stands after a call that returned the status.
abbrev pub stands_after : Bool → Call → ℤ → Bool
stands_after up (session (create hz own port)) status = not (is_neg status)
stands_after up (session (bye_destroy seconds)) status = false
stands_after up _ status = up

abbrev pub advance : Env → Trace → Option Bool → Call → Option Bool
advance env seen none c = none
advance env seen (some up) c =
    if is_legal up c then some (stands_after up c (env.status (seen ++ (c ∷ [])))) else none

-- Whether the session stands after the calls `rest` that follow the calls `seen`; `none` once a call
-- was made that may not be.
unfoldable pub monitor_from : Env → Trace → Option Bool → Trace → Option Bool
monitor_from env seen up [] = up
monitor_from env seen up (c ∷ cs) = monitor_from env (seen ++ (c ∷ [])) (advance env seen up c) cs

unfoldable pub monitor : Env → Trace → Option Bool
unfolding monitor_from
monitor env log = monitor_from env [] (some false) log

monitor_from-snoc :
    (env : Env) (seen log : Trace) (up : Option Bool) (c : Call)
    → monitor_from env seen up (log ++ (c ∷ []))
      ≡ advance env (seen ++ log) (monitor_from env seen up log) c
unfolding monitor_from
monitor_from-snoc env seen [] up c = rw append-nil
monitor_from-snoc env seen (d ∷ ds) up c =
    monitor_from-snoc env (seen ++ (d ∷ [])) ds (advance env seen up d) c
    ∙ ap (λ x. advance env x (monitor_from env (seen ++ (d ∷ [])) (advance env seen up d) ds) c)
        (append_assoc seen (d ∷ []) ds)

monitor-snoc :
    (env : Env) (log : Trace) (c : Call)
    → monitor env (log ++ (c ∷ [])) ≡ advance env log (monitor env log) c
unfolding monitor
monitor-snoc env log c = monitor_from-snoc env [] log (some false) c

-- The operations that look at `mInited` first.
pub data Op : Type 0 where
  init : ℤ → Op
  link : List ℕ → ℤ → Op
  unlink deinit : Op
  send_header : List ℕ → ℤ → List ℕ → ℤ → Op
  send : List ℕ → ℤ → ℤ → Op

unfoldable pub perform : Env → Op → Prog RtpSender Bool
perform env (init port) = init_session env port
perform env (link ip port) = connect env ip port
perform env unlink = disconnect
perform env deinit = deinit_session
perform env (send_header buff len header words) = send_buffer_header env buff len header words
perform env (send buff len time_stamp) = send_buffer env buff len time_stamp

-- The flag `mInited` says whether the session stands, no call was made that may not be, and a
-- sender is connected only while its session stands.
pub record Sound (env : Env) (s : RtpSender) (log : Trace) : Type 0 where
  pub session : monitor env log ≡ some s.inited
  pub connected : s.connected ≡ true → s.inited ≡ true

-- The operation comes to an end, and what it leaves is sound.
abbrev pub Ends : Env → Outcome RtpSender Bool → Type 0
Ends env (done r s log) = Sound env s log
Ends env crash = ⊥

pub monitor-tell :
    (env : Env) (log : Trace) (c : Call) (up : Bool)
    → monitor env log ≡ some up
    → is_legal up c ≡ true
    → monitor env (log ++ (c ∷ [])) ≡ some (stands_after up c (env.status (log ++ (c ∷ []))))
monitor-tell env log c up m e = rw (monitor-snoc env log c, m, e)

-- A call of a session that stands, and leaves it standing.
abbrev pub IsUse : SessionCall → Type 0
IsUse c =
    (status : ℤ)
    → (is_legal true (session c) ≡ true) × (stands_after true (session c) status ≡ true)

pub monitor-use :
    (env : Env) (log : Trace) (c : SessionCall)
    → IsUse c
    → monitor env log ≡ some true
    → monitor env (log ++ (session c ∷ [])) ≡ some true
monitor-use env log c u m =
    let (legal, stays) = u (env.status (log ++ (session c ∷ []))) in
    monitor-tell env log (session c) true m legal ∙ ap some stays
