-- ===== src/RtpSender/Protocol.antt =====
-- The session of an RtpSender is used as jrtplib wants it: created once, used only while it stands,
-- and destroyed before it is created again.
use greatone.Base.{
  ℕ, ◌≡◌, refl, Bool, true, false, not, ◌&&◌, some, List, [], ◌∷◌, ◌++◌, ℤ, to_word, pos, negsuc,
  is_neg, Bool-cases, inl, inr, ◌==◌, ◌∙◌, ap,
}
use greatone.World.{
  set_default_payload_type, set_default_mark, set_maximum_packet_size,
  set_default_timestamp_increment, add_destination, send_packet_as, send_packet_ex, poll,
  delete_destination, clear_destinations, create, bye_destroy, session, Trace, Env, Prog, Outcome,
  done, crash, ◌>>=◌, after, ret,
}
use greatone.RtpSender.Defs.{
  RtpSender, new, init_session, connect, disconnect, deinit_session, send_buffer_header,
  send_buffer, ntohl, sent, at_least, inaddr_none, is_already_exists, max_packet_size,
}
use greatone.RtpSender.Monitor.{
  monitor_from, monitor, Op, init, link, unlink, deinit, send_header, send, perform, Sound, Ends,
  monitor-tell, monitor-use,
}

-- A sender by its members.
abbrev sender : ℤ → Bool → Bool → ℕ → ℤ → RtpSender
sender local_port inited connected dest_ip dest_port = record {
  local_port = local_port;
  inited = inited;
  connected = connected;
  dest_ip = dest_ip;
  dest_port = dest_port;
}

-- A state whose session stands is sound.
standing :
    (env : Env) (log : Trace) (p : ℤ) (c : Bool) (ip : ℕ) (dp : ℤ)
    → monitor env log ≡ some true
    → Sound env (sender p true c ip dp) log
standing env log p c ip dp m = record { session = m; connected = λ _. refl }

module _ (env : Env) (log : Trace) (p : ℤ) (ip : ℕ) (dp : ℤ) where
  disconnect-Sound :
      (i c : Bool)
      → Sound env (sender p i c ip dp) log
      → Ends env (disconnect (sender p i c ip dp) log)
  unfolding disconnect
  disconnect-Sound i false h = h
  disconnect-Sound false true h = cc (h.connected refl)
  disconnect-Sound true true h = standing env _ p false ip dp (
      monitor-use env _ clear_destinations (λ _. (refl, refl))
        (monitor-use env log (delete_destination ip dp) (λ _. (refl, refl)) h.session))

  deinit-Sound :
      (i c : Bool)
      → Sound env (sender p i c ip dp) log
      → Ends env (deinit_session (sender p i c ip dp) log)
  unfolding deinit_session
  deinit-Sound false c h = h
  deinit-Sound true false h = record {
    session = monitor-tell env log (session (bye_destroy 1)) true h.session refl;
    connected = λ f. cc;
  }
  deinit-Sound true true h = record {
    session =
        monitor-tell env _ (session (bye_destroy 1)) true
          (monitor-use env _ clear_destinations (λ _. (refl, refl))
            (monitor-use env log (delete_destination ip dp) (λ _. (refl, refl)) h.session))
          refl;
    connected = λ f. cc;
  }

  init-Sound :
      (i c : Bool) (port : ℤ)
      → Sound env (sender p i c ip dp) log
      → Ends env (init_session env port (sender p i c ip dp) log)
  unfolding init_session
  init-Sound true c port h = h
  init-Sound false true port h = cc (h.connected refl)
  init-Sound false false port h =
      let log1 = log ++ (session (create 8000 true port) ∷ []) in
      let m = monitor-tell env log (session (create 8000 true port)) false h.session refl in
      elim (Bool-cases (is_neg (env.status log1))) [
        | inl failed ↦
            rw failed (record { session = m ∙ ap (λ b. some (not b)) failed; connected = λ f. cc })
        | inr created ↦ rw created (
            standing env _ port false ip dp (
              monitor-use env _ (set_default_timestamp_increment 1) (λ _. (refl, refl))
                (monitor-use env _ (set_maximum_packet_size max_packet_size) (λ _. (refl, refl))
                  (monitor-use env _ (set_default_mark true) (λ _. (refl, refl))
                    (monitor-use env log1 (set_default_payload_type 96) (λ _. (refl, refl))
                      (m ∙ ap (λ b. some (not b)) created))))))
      ]

  connect-Sound :
      (i c : Bool) (to : List ℕ) (port : ℤ)
      → Sound env (sender p i c ip dp) log
      → Ends env (connect env to port (sender p i c ip dp) log)
  unfolding connect
  connect-Sound false c to port h = h
  connect-Sound true true to port h = h
  connect-Sound true false to port h = elim (Bool-cases (env.inet_addr to == inaddr_none)) [
    | inl bad ↦ rw bad h
    | inr good ↦
        let ip' = ntohl (env.inet_addr to) in
        let log1 = log ++ (session (add_destination ip' port) ∷ []) in
        let m = monitor-use env log (add_destination ip' port) (λ _. (refl, refl)) h.session in
        elim (Bool-cases (is_neg (env.status log1) && not (is_already_exists (env.status log1)))) [
          | inl failed ↦ rw (good, failed) (standing env log1 p false ip' port m)
          | inr added ↦ rw (good, added) (standing env log1 p true ip' port m)
        ]
  ]

  -- A packet, and the `Poll` behind it.
  sent-Sound :
      (c : Bool) (log1 : Trace) (status : ℤ)
      → monitor env log1 ≡ some true
      → Ends env (sent env status (sender p true c ip dp) log1)
  unfolding sent
  sent-Sound c log1 (negsuc n) m = standing env log1 p c ip dp m
  sent-Sound c log1 (pos n) m =
      standing env _ p c ip dp (monitor-use env log1 poll (λ _. (refl, refl)) m)

  send-Sound :
      (i c : Bool) (buff : List ℕ) (len time_stamp : ℤ)
      → Sound env (sender p i c ip dp) log
      → Ends env (send_buffer env buff len time_stamp (sender p i c ip dp) log)
  unfolding send_buffer
  send-Sound false c buff len time_stamp h = h
  send-Sound true c buff len time_stamp h = sent-Sound c _ _ (
      monitor-use env log (send_packet_as buff (to_word len) 0 false (to_word time_stamp))
        (λ _. (refl, refl)) h.session)

  send_header-Sound :
      (i c : Bool) (buff : List ℕ) (len : ℤ) (header : List ℕ) (words : ℤ)
      → Sound env (sender p i c ip dp) log
      → Ends env (send_buffer_header env buff len header words (sender p i c ip dp) log)
  unfolding send_buffer_header
  send_header-Sound false c buff len header words h = h
  send_header-Sound true c buff len header words h =
      elim (Bool-cases (at_least len max_packet_size)) [
        | inl long ↦ rw long h
        | inr short ↦ rw short (
            sent-Sound c _ _ (
              monitor-use env log (send_packet_ex buff (to_word len) 0 header (to_word words))
                (λ _. (refl, refl)) h.session))
      ]

-- Whatever jrtplib returns, an operation ends without a crash and keeps the sender sound.
pub perform-Sound :
    (env : Env) (op : Op) (s : RtpSender) (log : Trace)
    → Sound env s log
    → Ends env (perform env op s log)
unfolding perform
perform-Sound env (init port) s log h =
    init-Sound env log s.local_port s.dest_ip s.dest_port s.inited s.connected port h
perform-Sound env (link to port) s log h =
    connect-Sound env log s.local_port s.dest_ip s.dest_port s.inited s.connected to port h
perform-Sound env unlink s log h =
    disconnect-Sound env log s.local_port s.dest_ip s.dest_port s.inited s.connected h
perform-Sound env deinit s log h =
    deinit-Sound env log s.local_port s.dest_ip s.dest_port s.inited s.connected h
perform-Sound env (send_header buff len header words) s log h =
    send_header-Sound env log s.local_port s.dest_ip s.dest_port s.inited s.connected buff len
      header words h
perform-Sound env (send buff len time_stamp) s log h =
    send-Sound env log s.local_port s.dest_ip s.dest_port s.inited s.connected buff len time_stamp h

-- A new sender, while no session stands.
pub new-Sound : (env : Env) (log : Trace) → monitor env log ≡ some false → Sound env new log
unfolding new
new-Sound env log down = record { session = down; connected = λ e. cc }

-- The operations one after another, with their results.
pub perform_all : Env → List Op → Prog RtpSender (List Bool)
perform_all env [] = ret []
perform_all env (op ∷ ops) = do r ← perform env op; rs ← perform_all env ops; ret (r ∷ rs)

abbrev pub EndsAll : Env → Outcome RtpSender (List Bool) → Type 0
EndsAll env (done rs s log) = Sound env s log
EndsAll env crash = ⊥

perform_all-Sound :
    (env : Env) (ops : List Op) (s : RtpSender) (log : Trace)
    → Sound env s log
    → EndsAll env (perform_all env ops s log)
unfolding perform_all
perform_all-Sound env [] s log h = h
perform_all-Sound env (op ∷ ops) s log h =
    go (perform env op s log) (perform-Sound env op s log h) (perform_all-Sound env ops)
  where
    finish :
        (r : Bool) (o : Outcome RtpSender (List Bool))
        → EndsAll env o
        → EndsAll env (after o (λ rs. ret (r ∷ rs)))
    finish r (done rs s' log') e = e
    finish r crash e = e

    go :
        (o : Outcome RtpSender Bool)
        → Ends env o
        → ((s' : RtpSender) (log' : Trace)
            → Sound env s' log'
            → EndsAll env (perform_all env ops s' log'))
        → EndsAll env (after o (λ r. perform_all env ops >>= λ rs. ret (r ∷ rs)))
    go (done r s' log') e ih = finish r (perform_all env ops s' log') (ih s' log' e)
    go crash e ih = absurd e

-- From a new sender, any run of `initSession`, `connect`, `disConnect`, `deinitSession` and the two
-- `sendBuffer` ends without a crash, whatever the session returns; no call of the session is made
-- out of turn (before `Create`, after `BYEDestroy`, or a `Create` of a session that stands),
-- `mInited` says whether the session stands, and a connected sender is one whose session stands.
pub perform_all-new : (env : Env) (ops : List Op) → EndsAll env (perform_all env ops new [])
unfolding new monitor monitor_from
perform_all-new env ops =
    perform_all-Sound env ops new [] (record { session = refl; connected = λ e. cc })
