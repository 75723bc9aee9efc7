-- ===== src/Receive/Peers.antt =====
-- The class RTPSessionEx of RtpTrans/RTPSessionEx.cpp: the session sends to whoever sends to it.
use greatone.Base.{
  ℕ, ◌-◌, ◌+◌, ◌%◌, ◌^◌, ◌≡◌, refl, Bool, true, false, Option, none, some, List, [], ◌∷◌, ◌++◌, pos,
  if◌then◌else◌, append-nil, append_assoc, sym, ap, ◌∙◌,
}
use greatone.World.{
  add_destination, delete_destination, session, Trace, Prog, done, ret, ◌>>=◌, ◌>>◌, get, put, tell,
}
use greatone.RtpSender.Defs.{ntohl}

pub record Address : Type 0 where
  pub ip : ℕ
  pub port : ℕ

-- What is asked of an `RTPSourceData`.
pub record SourceData : Type 0 where
  pub own_ssrc : Bool
  pub rtp_address : Option Address
  pub rtcp_address : Option Address
  pub received_bye : Bool

-- `mSourceIp`, the text of an address.
pub record SessionEx : Type 0 where
  pub source_ip : List ℕ

unfoldable pub new : SessionEx
new = record { source_ip = [] }

-- The address one port before.
abbrev before : Address → Address
before addr = record { ip = addr.ip; port = (addr.port + (2 ^ 16 - 1)) % 2 ^ 16 }

-- The address that the handlers compute: `GetPort()-1` becomes a `uint16_t`.
unfoldable pub peer_address : SourceData → Option Address
peer_address dat = elim dat.rtp_address [
  | some addr ↦ some addr
  | none ↦ elim dat.rtcp_address [ some addr ↦ some (before addr) | none ↦ none ]
]

module _ (inet_ntoa : ℕ → List ℕ) where
  add_peer : Option Address → Prog SessionEx (Unit {0})
  add_peer none = ret tt
  add_peer (some dest) = do
    tell (session (add_destination dest.ip (pos dest.port)))
    s ← get
    put (record s { source_ip = inet_ntoa (ntohl dest.ip) })

  -- `OnNewSource`. (`htonl` is the same function as `ntohl`.)
  unfoldable pub on_new_source : SourceData → Prog SessionEx (Unit {0})
  unfolding add_peer
  on_new_source dat = if dat.own_ssrc then ret tt else add_peer (peer_address dat)

delete_peer : Option Address → Prog SessionEx (Unit {0})
delete_peer none = ret tt
delete_peer (some dest) = tell (session (delete_destination dest.ip (pos dest.port)))

-- `OnBYEPacket`.
unfoldable pub on_bye_packet : SourceData → Prog SessionEx (Unit {0})
unfolding delete_peer
on_bye_packet dat = if dat.own_ssrc then ret tt else delete_peer (peer_address dat)

-- `OnRemoveSource`.
unfoldable pub on_remove_source : SourceData → Prog SessionEx (Unit {0})
unfolding delete_peer
on_remove_source dat =
    if dat.own_ssrc
    then ret tt
    else if dat.received_bye
    then ret tt
    else delete_peer (peer_address dat)

-- The address of the source's peer, unless it is of the session's own.
abbrev pub peer_of : SourceData → Option Address
peer_of dat = if dat.own_ssrc then none else peer_address dat

abbrev pub added : Option Address → Trace
added none = []
added (some dest) = session (add_destination dest.ip (pos dest.port)) ∷ []

abbrev pub deleted : Option Address → Trace
deleted none = []
deleted (some dest) = session (delete_destination dest.ip (pos dest.port)) ∷ []

abbrev source_of : Bool → Bool → Option Address → Option Address → SourceData
source_of own bye rtp rtcp = record {
  own_ssrc = own;
  rtp_address = rtp;
  rtcp_address = rtcp;
  received_bye = bye;
}

-- A handler that returns and makes these calls.
abbrev pub Does : Prog SessionEx (Unit {0}) → Trace → Type 0
Does p calls =
    (s : SessionEx) (log : Trace) → (t : SessionEx) × (p s log ≡ done tt t (log ++ calls))

source-Does_none : Does (ret tt) []
source-Does_none s log = (s, ap (done tt s) (sym (append-nil log)))

pub on_new_source-Does :
    (inet_ntoa : ℕ → List ℕ) (dat : SourceData)
    → Does (on_new_source inet_ntoa dat) (added (peer_of dat))
unfolding on_new_source peer_address add_peer
on_new_source-Does f dat = go dat.own_ssrc dat.received_bye dat.rtp_address dat.rtcp_address
  where
    go :
        (own bye : Bool) (rtp rtcp : Option Address)
        → Does
            (on_new_source f (source_of own bye rtp rtcp))
            (added (peer_of (source_of own bye rtp rtcp)))
    go true bye rtp rtcp s log = source-Does_none s log
    go false bye (some d) rtcp s log = (record s { source_ip = f (ntohl d.ip) }, refl)
    go false bye none (some d) s log = (record s { source_ip = f (ntohl d.ip) }, refl)
    go false bye none none s log = source-Does_none s log

pub on_bye_packet-Does : (dat : SourceData) → Does (on_bye_packet dat) (deleted (peer_of dat))
unfolding on_bye_packet peer_address delete_peer
on_bye_packet-Does dat = go dat.own_ssrc dat.received_bye dat.rtp_address dat.rtcp_address
  where
    go :
        (own bye : Bool) (rtp rtcp : Option Address)
        → Does
            (on_bye_packet (source_of own bye rtp rtcp))
            (deleted (peer_of (source_of own bye rtp rtcp)))
    go true bye rtp rtcp s log = source-Does_none s log
    go false bye (some d) rtcp s log = (s, refl)
    go false bye none (some d) s log = (s, refl)
    go false bye none none s log = source-Does_none s log

pub on_remove_source-Does :
    (bye : Bool) (dat : SourceData)
    → Does
        (on_remove_source (record dat { received_bye = bye }))
        (if bye then [] else deleted (peer_of dat))
unfolding on_remove_source peer_address delete_peer
on_remove_source-Does bye dat = go dat.own_ssrc bye dat.rtp_address dat.rtcp_address
  where
    go :
        (own bye' : Bool) (rtp rtcp : Option Address)
        → Does
            (on_remove_source (source_of own bye' rtp rtcp))
            (if bye' then [] else deleted (peer_of (source_of own bye' rtp rtcp)))
    go true true rtp rtcp s log = source-Does_none s log
    go true false rtp rtcp s log = source-Does_none s log
    go false true rtp rtcp s log = source-Does_none s log
    go false false (some d) rtcp s log = (s, refl)
    go false false none (some d) s log = (s, refl)
    go false false none none s log = source-Does_none s log

-- A source that comes and goes: by a BYE packet, after which jrtplib removes it with the mark that
-- the packet was received, or by its removal alone.
abbrev pub lifetime : (ℕ → List ℕ) → (by_bye : Bool) → SourceData → Prog SessionEx (Unit {0})
lifetime inet_ntoa true dat =
    on_new_source inet_ntoa dat
    >> on_bye_packet dat
    >> on_remove_source (record dat { received_bye = true })
lifetime inet_ntoa false dat =
    on_new_source inet_ntoa dat >> on_remove_source (record dat { received_bye = false })

-- One destination added and the same one deleted, and nothing for a source of the session's own.
abbrev pub added_and_deleted : Bool → Option Address → Trace
added_and_deleted true dest = []
added_and_deleted false none = []
added_and_deleted false (some dest) =
    session (add_destination dest.ip (pos dest.port))
    ∷ session (delete_destination dest.ip (pos dest.port))
    ∷ []

both_calls :
    (log : Trace) (own : Bool) (p : Option Address)
    → (log ++ added (if own then none else p)) ++ deleted (if own then none else p)
      ≡ log ++ added_and_deleted own p
both_calls log true p = append-nil (log ++ [])
both_calls log false none = append-nil (log ++ [])
both_calls log false (some d) = append_assoc log _ _

-- A source that comes and goes, whichever way, adds its address to the destinations once and
-- deletes that same address once; a source of the session's own, and one without an address, does
-- neither.
lifetime-balanced :
    (inet_ntoa : ℕ → List ℕ) (by_bye : Bool) (dat : SourceData) (s : SessionEx) (log : Trace)
    → (t : SessionEx) × (lifetime inet_ntoa by_bye dat s log
        ≡ done tt t (log ++ added_and_deleted dat.own_ssrc (peer_address dat)))
lifetime-balanced f true dat s log =
    let (t, come) = on_new_source-Does f dat s log in
    let (u, bye) = on_bye_packet-Does dat t (log ++ added (peer_of dat)) in
    let (v, gone) =
      on_remove_source-Does true dat u ((log ++ added (peer_of dat)) ++ deleted (peer_of dat)) in
    (
      v,
      rw (come, bye, gone)
          (ap (done tt v) (append-nil _ ∙ both_calls log dat.own_ssrc (peer_address dat))),
    )
lifetime-balanced f false dat s log =
    let (t, come) = on_new_source-Does f dat s log in
    let (u, gone) = on_remove_source-Does false dat t (log ++ added (peer_of dat)) in
    (u, rw (come, gone) (ap (done tt u) (both_calls log dat.own_ssrc (peer_address dat))))
