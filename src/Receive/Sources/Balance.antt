-- ===== src/Receive/Sources/Balance.antt =====
-- The destinations that many sources leave behind: each is added as often as it is deleted and is the
-- address of a present source.
use greatone.Base.{
  ℕ, ◌+◌, ◌≡◌, refl, Bool, false, ◌&&◌, Option, none, some, List, [], ◌∷◌, ◌++◌, pos, arith, ◌==◌,
  if◌then◌else◌,
}
use greatone.World.{add_destination, delete_destination, session, Call, Trace, done}
use greatone.Receive.Peers as Peers
use greatone.Receive.Peers.{Address, SourceData, SessionEx, peer_of, added, deleted}
use greatone.Receive.Sources.{Event, handle_all, Takes, here, there, Lives, Kept, handle_all-Comes}

abbrev pub same : Address → Address → Bool
same a b = (a.ip == b.ip) && (a.port == b.port)

abbrev pub is_at : Address → Option Address → Bool
is_at a none = false
is_at a (some b) = same b a

abbrev pub is_add : Address → Call → Bool
is_add a (session (add_destination ip (pos port))) = same (record { ip = ip; port = port }) a
is_add a _ = false

abbrev pub is_delete : Address → Call → Bool
is_delete a (session (delete_destination ip (pos port))) = same (record { ip = ip; port = port }) a
is_delete a _ = false

abbrev pub count : (Call → Bool) → Trace → ℕ
count test [] = 0
count test (c ∷ cs) = (if test c then 1 else 0) + count test cs

-- How many of the sources have their peer at the address.
abbrev pub present : Address → List SourceData → ℕ
present a [] = 0
present a (dat ∷ ds) = (if is_at a (peer_of dat) then 1 else 0) + present a ds

count-append :
    (test : Call → Bool) (cs ds : Trace) → count test (cs ++ ds) ≡ count test cs + count test ds
count-append test [] ds = omega arith
count-append test (c ∷ cs) ds = omega (arith, count-append test cs ds)

pub present-Takes :
    {dat : SourceData} {ds rest : List SourceData} (a : Address)
    → Takes dat ds rest
    → present a ds ≡ present a (dat ∷ rest)
present-Takes a here = refl
present-Takes a (there t) = omega (arith, present-Takes a t)

-- Every address was added as often as it was deleted and is that of a source.
abbrev pub Balanced : Trace → List SourceData → Type 0
Balanced log ds = (a : Address) → count (is_add a) log ≡ count (is_delete a) log + present a ds

added-counts :
    (a : Address) (p : Option Address)
    → (count (is_add a) (added p) ≡ (if is_at a p then 1 else 0))
      × (count (is_delete a) (added p) ≡ 0)
added-counts a none = (refl, refl)
added-counts a (some b) = (omega arith, refl)

deleted-counts :
    (a : Address) (p : Option Address)
    → (count (is_delete a) (deleted p) ≡ (if is_at a p then 1 else 0))
      × (count (is_add a) (deleted p) ≡ 0)
deleted-counts a none = (refl, refl)
deleted-counts a (some b) = (omega arith, refl)

Balanced-append :
    (log calls : Trace) (ds es : List SourceData)
    → ((a : Address)
        → count (is_add a) calls + present a ds ≡ count (is_delete a) calls + present a es)
    → Balanced log ds
    → Balanced (log ++ calls) es
Balanced-append log calls ds es step h a =
    omega
      (arith, count-append (is_add a) log calls, count-append (is_delete a) log calls, step a, h a)

Balanced-added :
    (log : Trace) (dat : SourceData) (ds : List SourceData)
    → Balanced log ds
    → Balanced (log ++ added (peer_of dat)) (dat ∷ ds)
Balanced-added log dat ds =
    Balanced-append log (added (peer_of dat)) ds (dat ∷ ds)
      (λ a. omega (arith, (added-counts a (peer_of dat)).0, (added-counts a (peer_of dat)).1))

Balanced-deleted :
    {dat : SourceData} {ds rest : List SourceData} (log : Trace)
    → Takes dat ds rest
    → Balanced log ds
    → Balanced (log ++ deleted (peer_of dat)) rest
Balanced-deleted {dat} {ds} {rest} log t = Balanced-append log (deleted (peer_of dat)) ds rest (λ a.
    omega (
      arith,
      (deleted-counts a (peer_of dat)).0,
      (deleted-counts a (peer_of dat)).1,
      present-Takes a t,
    ))

-- Any source may come.
abbrev pub AnySource : SourceData → List SourceData → Type 0
AnySource dat ds = Unit {0}

-- No BYE is repeated.
abbrev pub NoRepeat : SourceData → List SourceData → Type 0
NoRepeat dat ds = ⊥

Balanced-Kept : Kept AnySource NoRepeat Balanced
Balanced-Kept = record {
  by_added = λ dat ds log guard. Balanced-added log dat ds;
  by_deleted = λ dat ds rest log. Balanced-deleted log;
  by_repeated = λ dat ds log never. absurd never;
}

-- Whatever sources come, and then each says BYE at most once or is removed without, in whatever
-- order, and even where they share an address, but each with the same peer address as long as it
-- is there: the handlers return, and of each address the session was told to add it as often as
-- to delete it, and once more for each present source with a peer there.
pub handle_all-Balanced :
    {ps bs : List SourceData} {es : List Event} (inet_ntoa : ℕ → List ℕ)
    → Lives AnySource NoRepeat [] [] es ps bs
    → (t : SessionEx) × (log : Trace) × (handle_all inet_ntoa es Peers.new [] ≡ done tt t log)
      × Balanced log ps
handle_all-Balanced f l =
    handle_all-Comes AnySource NoRepeat Balanced f Balanced-Kept l Peers.new [] (λ a. refl)
