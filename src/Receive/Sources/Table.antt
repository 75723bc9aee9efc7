-- ===== src/Receive/Sources/Table.antt =====
-- jrtplib's table of destinations, where the handlers of many sources change it.
use greatone.Base.{
  ℕ, ◌+◌, ◌≤◌, ◌≡◌, refl, Bool, true, false, ◌&&◌, ◌||◌, not, Option, none, some, List, [], ◌∷◌,
  ◌++◌, pos, arith, ltb, if◌then◌else◌, append-nil,
}
use greatone.World.{
  add_destination, delete_destination, clear_destinations, session, Call, Trace, done,
}
use greatone.World.History.{replay, replay-append}
use greatone.Receive.Peers as Peers
use greatone.Receive.Peers.{
  Address, SourceData, SessionEx, peer_of, added, deleted, Does, on_new_source-Does,
  on_bye_packet-Does, on_remove_source-Does,
}
use greatone.Receive.Sources.{
  Event, came, said_bye, removed, handle, handle_all, Takes, Lives, Kept, handle_all-Comes,
}
use greatone.Receive.Sources.Balance.{same, is_at, present, present-Takes}

-- The table of destinations of an RTPSession, and what its documentation says: an address is in it
-- or not, so that adding one that is there changes nothing.
pub record Destinations : Type 1 where
  pub Table : Type 0
  pub empty : Table
  pub add : Table → Address → Table
  pub delete : Table → Address → Table
  pub has : Table → Address → Bool
  pub has-empty : (b : Address) → has empty b ≡ false
  pub has-add : (t : Table) (a b : Address) → has (add t a) b ≡ (same a b || has t b)
  pub has-delete : (t : Table) (a b : Address) → has (delete t a) b ≡ (not (same a b) && has t b)

-- The address of a source, one that comes or repeats its BYE, is not that of a present one.
abbrev pub OwnAddress : SourceData → List SourceData → Type 0
OwnAddress dat ds = (a : Address) → is_at a (peer_of dat) ≡ true → present a ds ≡ 0

-- A source says BYE, or is removed without.
abbrev pub leaves : (by_bye : Bool) → SourceData → Event
leaves true dat = said_bye dat
leaves false dat = removed (record dat { received_bye = false })

handle_came :
    (inet_ntoa : ℕ → List ℕ) (dat : SourceData)
    → Does (handle inet_ntoa (came dat)) (added (peer_of dat))
unfolding handle
handle_came f dat = on_new_source-Does f dat

handle_leaves :
    (inet_ntoa : ℕ → List ℕ) (by_bye : Bool) (dat : SourceData)
    → Does (handle inet_ntoa (leaves by_bye dat)) (deleted (peer_of dat))
unfolding handle
handle_leaves f true dat = on_bye_packet-Does dat
handle_leaves f false dat = on_remove_source-Does false dat

same_refl : (a : Address) → same a a ≡ true
same_refl a = ground arith

one_more :
    (b x : Bool) (n : ℕ)
    → (b ≡ true → n ≡ 0)
    → (x ≡ ltb 0 n) × (n ≤ 1)
    → ((b || x) ≡ ltb 0 ((if b then 1 else 0) + n)) × ((if b then 1 else 0) + n ≤ 1)
one_more true x n own (has, few) = rw (own refl) (refl, omega arith)
one_more false x n own (has, few) = (ground (arith, has), omega (arith, few))

one_less :
    (b x : Bool) (n m : ℕ)
    → n ≡ (if b then 1 else 0) + m
    → (x ≡ ltb 0 n) × (n ≤ 1)
    → ((not b && x) ≡ ltb 0 m) × (m ≤ 1)
one_less true x n m e (has, few) = (ground (arith, e, few), omega (arith, e, few))
one_less false x n m e (has, few) = (ground (arith, e, has), omega (arith, e, few))

none_less :
    (b x : Bool) (n : ℕ)
    → (b ≡ true → n ≡ 0)
    → (x ≡ ltb 0 n) × (n ≤ 1)
    → ((not b && x) ≡ ltb 0 n) × (n ≤ 1)
none_less true x n own (has, few) = rw (own refl) (refl, omega arith)
none_less false x n own h = h

module _ (d : Destinations) where
  abbrev pub change : d.Table → Trace → Call → d.Table
  change t log (session (add_destination ip (pos port))) = d.add t (record { ip = ip; port = port })
  change t log (session (delete_destination ip (pos port))) =
      d.delete t (record { ip = ip; port = port })
  change t log (session clear_destinations) = d.empty
  change t log _ = t

  -- The table after the calls.
  abbrev pub table : Trace → d.Table
  table = replay change d.empty []

  -- The table has the addresses of the sources, each of one source.
  abbrev pub Tabled : Trace → List SourceData → Type 0
  Tabled log ds = (a : Address) → (d.has (table log) a ≡ ltb 0 (present a ds)) × (present a ds ≤ 1)

  has-added :
      (p : Option Address) (log : Trace) (a : Address)
      → d.has (table (log ++ added p)) a ≡ (is_at a p || d.has (table log) a)
  has-added none log a = rw (append-nil log) refl
  has-added (some b) log a =
      rw
        (
          replay-append change d.empty [] log (session (add_destination b.ip (pos b.port))),
          d.has-add (table log) b a,
        )
        refl

  has-deleted :
      (p : Option Address) (log : Trace) (a : Address)
      → d.has (table (log ++ deleted p)) a ≡ (not (is_at a p) && d.has (table log) a)
  has-deleted none log a = rw (append-nil log) refl
  has-deleted (some b) log a =
      rw
        (
          replay-append change d.empty [] log (session (delete_destination b.ip (pos b.port))),
          d.has-delete (table log) b a,
        )
        refl

  Tabled-added :
      (dat : SourceData) (ds : List SourceData) (log : Trace)
      → OwnAddress dat ds
      → Tabled log ds
      → Tabled (log ++ added (peer_of dat)) (dat ∷ ds)
  Tabled-added dat ds log own h a =
      rw (has-added (peer_of dat) log a)
        (one_more (is_at a (peer_of dat)) (d.has (table log) a) (present a ds) (own a) (h a))

  Tabled-deleted :
      (dat : SourceData) (ds rest : List SourceData) (log : Trace)
      → Takes dat ds rest
      → Tabled log ds
      → Tabled (log ++ deleted (peer_of dat)) rest
  Tabled-deleted dat ds rest log takes h a = rw (has-deleted (peer_of dat) log a) (
      one_less (is_at a (peer_of dat)) (d.has (table log) a) (present a ds) (present a rest)
        (present-Takes a takes) (h a))

  Tabled-repeated :
      (dat : SourceData) (ds : List SourceData) (log : Trace)
      → OwnAddress dat ds
      → Tabled log ds
      → Tabled (log ++ deleted (peer_of dat)) ds
  Tabled-repeated dat ds log own h a =
      rw (has-deleted (peer_of dat) log a)
        (none_less (is_at a (peer_of dat)) (d.has (table log) a) (present a ds) (own a) (h a))

  Tabled-Kept : Kept OwnAddress OwnAddress Tabled
  Tabled-Kept = record {
    by_added = Tabled-added;
    by_deleted = Tabled-deleted;
    by_repeated = Tabled-repeated;
  }

  -- Sources come and go in whatever order, but one comes only while no present source has its
  -- address, keeps its peer address as long as it is there, and repeats its BYE only while no
  -- present source has its address: the handlers return, and the table has exactly the addresses
  -- of the present sources, each of one source.
  pub handle_all-Tabled :
      {ps bs : List SourceData} {es : List Event} (inet_ntoa : ℕ → List ℕ)
      → Lives OwnAddress OwnAddress [] [] es ps bs
      → (t : SessionEx) × (log : Trace) × (handle_all inet_ntoa es Peers.new [] ≡ done tt t log)
        × ((a : Address) → (d.has (table log) a ≡ ltb 0 (present a ps)) × (present a ps ≤ 1))
  handle_all-Tabled f l =
      handle_all-Comes OwnAddress OwnAddress Tabled f Tabled-Kept l Peers.new []
        (λ a. (d.has-empty a, omega arith))

  -- When two sources with one address come, and one of them says BYE or is removed without, their
  -- address is out of the table, though the other is still there.
  pub shared-lost :
      (inet_ntoa : ℕ → List ℕ) (by_bye : Bool) (one other : SourceData) (a : Address)
      (s : SessionEx) (log : Trace)
      → peer_of one ≡ some a
      → peer_of other ≡ some a
      → (t : SessionEx) × (log' : Trace) × (handle_all inet_ntoa
            (came one ∷ came other ∷ leaves by_bye one ∷ [])
            s
            log
          ≡ done tt t log')
        × (d.has (table log') a ≡ false)
        × (present a (other ∷ []) ≡ 1)
  unfolding handle_all
  shared-lost f by_bye one other a s log at_one at_other =
      let log1 = log ++ added (peer_of one) in
      let log2 = log1 ++ added (peer_of other) in
      let (t1, first) = handle_came f one s log in
      let (t2, second) = handle_came f other t1 log1 in
      let (t3, gone) = handle_leaves f by_bye one t2 log2 in
      (
        t3,
        log2 ++ deleted (peer_of one),
        rw (first, second, gone) refl,
        rw (has-deleted (peer_of one) log2 a, at_one, same_refl a) refl,
        rw (at_other, same_refl a) refl,
      )
