-- ===== src/Receive/Sources.antt =====
-- Many sources of one session: the handlers of RtpTrans/RTPSessionEx.cpp as jrtplib calls them.
pub mod Balance
pub mod Table
use greatone.Base.{ℕ, ◌≡◌, refl, true, false, List, [], ◌∷◌, ◌++◌, append-nil}
use greatone.World.{Trace, Prog, done, ret, ◌>>◌}
use greatone.Receive.Peers.{
  SourceData, SessionEx, on_new_source, on_bye_packet, on_remove_source, peer_of, added, deleted,
  on_new_source-Does, on_bye_packet-Does, on_remove_source-Does,
}

-- A call of a handler.
pub data Event : Type 0 where
  came said_bye removed : SourceData → Event

unfoldable pub handle : (ℕ → List ℕ) → Event → Prog SessionEx (Unit {0})
handle inet_ntoa (came dat) = on_new_source inet_ntoa dat
handle inet_ntoa (said_bye dat) = on_bye_packet dat
handle inet_ntoa (removed dat) = on_remove_source dat

unfoldable pub handle_all : (ℕ → List ℕ) → List Event → Prog SessionEx (Unit {0})
unfolding handle
handle_all inet_ntoa [] = ret tt
handle_all inet_ntoa (e ∷ es) = handle inet_ntoa e >> handle_all inet_ntoa es

-- `dat` is one of the sources, and these are the others.
pub data Takes (dat : SourceData) : List SourceData → List SourceData → Type 0 where
  here : {ds : List SourceData} → Takes dat (dat ∷ ds) ds
  there :
      {d : SourceData} {ds rest : List SourceData}
      → Takes dat ds rest
      → Takes dat (d ∷ ds) (d ∷ rest)

-- The order in which jrtplib calls the handlers, from some present sources, and some that said BYE
-- and are not removed yet, to others. A source comes, where `Guard` lets it; then it either says BYE
-- and is removed later, with the mark that it did, or is removed without. In between it may repeat
-- its BYE where `Again` lets it: jrtplib calls the handler for each BYE packet. What is known of a
-- source may change meanwhile, but not the address of its peer.
pub data Lives (Guard Again : SourceData → List SourceData → Type 0)
    : List SourceData
      → List SourceData
      → List Event
      → List SourceData
      → List SourceData
      → Type 0 where
  stays : {ps bs : List SourceData} → Lives Guard Again ps bs [] ps bs
  comes :
      {dat : SourceData} {ps bs ps' bs' : List SourceData} {es : List Event}
      → Guard dat ps
      → Lives Guard Again (dat ∷ ps) bs es ps' bs'
      → Lives Guard Again ps bs (came dat ∷ es) ps' bs'
  says_bye :
      {dat now : SourceData} {ps bs rest ps' bs' : List SourceData} {es : List Event}
      → Takes dat ps rest
      → peer_of now ≡ peer_of dat
      → Lives Guard Again rest (now ∷ bs) es ps' bs'
      → Lives Guard Again ps bs (said_bye now ∷ es) ps' bs'
  says_bye_again :
      {dat now : SourceData} {ps bs rest ps' bs' : List SourceData} {es : List Event}
      → Takes dat bs rest
      → peer_of now ≡ peer_of dat
      → Again now ps
      → Lives Guard Again ps bs es ps' bs'
      → Lives Guard Again ps bs (said_bye now ∷ es) ps' bs'
  goes_after_bye :
      {dat : SourceData} (now : SourceData) {ps bs rest ps' bs' : List SourceData} {es : List Event}
      → Takes dat bs rest
      → Lives Guard Again ps rest es ps' bs'
      → Lives Guard Again ps bs (removed (record now { received_bye = true }) ∷ es) ps' bs'
  goes_silently :
      {dat : SourceData} (now : SourceData) {ps bs rest ps' bs' : List SourceData} {es : List Event}
      → Takes dat ps rest
      → peer_of now ≡ peer_of dat
      → Lives Guard Again rest bs es ps' bs'
      → Lives Guard Again ps bs (removed (record now { received_bye = false }) ∷ es) ps' bs'

module _ (Guard Again : SourceData → List SourceData → Type 0)
    (Inv : Trace → List SourceData → Type 0) where
  -- What is true of the calls so far and the present sources stays true when a source comes and
  -- when one goes.
  pub record Kept : Type 0 where
    pub by_added :
        (dat : SourceData) (ds : List SourceData) (log : Trace)
        → Guard dat ds
        → Inv log ds
        → Inv (log ++ added (peer_of dat)) (dat ∷ ds)
    pub by_deleted :
        (dat : SourceData) (ds rest : List SourceData) (log : Trace)
        → Takes dat ds rest
        → Inv log ds
        → Inv (log ++ deleted (peer_of dat)) rest
    pub by_repeated :
        (dat : SourceData) (ds : List SourceData) (log : Trace)
        → Again dat ds
        → Inv log ds
        → Inv (log ++ deleted (peer_of dat)) ds

  -- The handlers return, and what they keep is true afterwards.
  abbrev pub Comes : (ℕ → List ℕ) → List Event → SessionEx → Trace → List SourceData → Type 0
  Comes inet_ntoa es s log ps =
      (t : SessionEx) × (log' : Trace) × (handle_all inet_ntoa es s log ≡ done tt t log')
      × Inv log' ps

  pub handle_all-Comes :
      {ps bs ps' bs' : List SourceData} {es : List Event} (inet_ntoa : ℕ → List ℕ)
      → Kept
      → Lives Guard Again ps bs es ps' bs'
      → (s : SessionEx) (log : Trace) → Inv log ps
      → Comes inet_ntoa es s log ps'
  unfolding handle handle_all
  handle_all-Comes f k stays s log h = (s, log, refl, h)
  handle_all-Comes f k (comes {dat} {ps} guard l) s log h =
      let (t, did) = on_new_source-Does f dat s log in
      let (u, log', ran, h') =
        handle_all-Comes f k l t (log ++ added (peer_of dat)) (k.by_added dat ps log guard h) in
      (u, log', rw (did, ran), h')
  handle_all-Comes f k (says_bye {dat} {now} {ps} {bs} {rest} takes same l) s log h =
      let (t, did) = on_bye_packet-Does now s log in
      let (u, log', ran, h') =
        handle_all-Comes f k l t (log ++ deleted (peer_of now))
          (rw same (k.by_deleted dat ps rest log takes h)) in
      (u, log', rw (did, ran), h')
  handle_all-Comes f k (says_bye_again {dat} {now} {ps} takes same again l) s log h =
      let (t, did) = on_bye_packet-Does now s log in
      let (u, log', ran, h') =
        handle_all-Comes f k l t (log ++ deleted (peer_of now))
          (k.by_repeated now ps log again h) in
      (u, log', rw (did, ran), h')
  handle_all-Comes f k (goes_after_bye now takes l) s log h =
      let (t, did) = on_remove_source-Does true now s log in
      let (u, log', ran, h') = handle_all-Comes f k l t log h in
      (u, log', rw (did, append-nil log, ran), h')
  handle_all-Comes f k (goes_silently {dat} now {ps} {bs} {rest} takes same l) s log h =
      let (t, did) = on_remove_source-Does false now s log in
      let (u, log', ran, h') =
        handle_all-Comes f k l t (log ++ deleted (peer_of now))
          (rw same (k.by_deleted dat ps rest log takes h)) in
      (u, log', rw (did, ran), h')
