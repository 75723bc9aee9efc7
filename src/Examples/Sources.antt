-- ===== src/Examples/Sources.antt =====
-- The theorems on the sources of a session, for one source that speaks RTP, one known by RTCP alone,
-- and one more at the address of the first.
use greatone.Base.{
  ℕ, ◌≤◌, ◌≡◌, refl, Bool, true, false, ◌&&◌, ◌||◌, not, none, some, List, [], ◌∷◌, arith, ltb,
}
use greatone.World.{Trace, done}
use greatone.Receive.Peers.{Address, SourceData, SessionEx, new, peer_address}
use greatone.Receive.Sources.{
  Event, came, said_bye, removed, handle_all, here, there, Lives, stays, comes, says_bye,
  says_bye_again, goes_after_bye, goes_silently,
}
use greatone.Receive.Sources.Balance.{
  same, is_at, present, Balanced, AnySource, NoRepeat, handle_all-Balanced,
}
use greatone.Receive.Sources.Table.{
  Destinations, OwnAddress, table, leaves, handle_all-Tabled, shared-lost,
}

abbrev first_address : Address
first_address = record { ip = 16909060; port = 9000 }

abbrev speaker : SourceData
speaker = record {
  own_ssrc = false;
  rtp_address = some first_address;
  rtcp_address = none;
  received_bye = false;
}

-- Its RTCP packets come from port 7001.
abbrev listener : SourceData
listener = record {
  own_ssrc = false;
  rtp_address = none;
  rtcp_address = some (record { ip = 84281096; port = 7001 });
  received_bye = false;
}

abbrev second_speaker : SourceData
second_speaker = record speaker { rtcp_address = some (record { ip = 16909060; port = 9001 }) }

abbrev to_text : ℕ → List ℕ
to_text ip = []

-- The first speaker leaves by BYE, and the listener without.
abbrev shared_events : List Event
shared_events =
    came speaker
    ∷ came listener
    ∷ came second_speaker
    ∷ said_bye speaker
    ∷ removed (record listener { received_bye = false })
    ∷ removed (record speaker { received_bye = true })
    ∷ []

shared-Lives : Lives AnySource NoRepeat [] [] shared_events (second_speaker ∷ []) []
shared-Lives = comes tt (
    comes tt (
      comes tt (
        says_bye (there (there here)) refl
          (goes_silently listener (there here) refl (goes_after_bye speaker here stays)))))

handle_all-Balanced_example :
    (t : SessionEx) × (log : Trace) × (handle_all to_text shared_events new [] ≡ done tt t log)
    × Balanced log (second_speaker ∷ [])
handle_all-Balanced_example = handle_all-Balanced to_text shared-Lives

-- A table that is the test itself.
abbrev tests : Destinations
tests = record {
  Table = Address → Bool;
  empty = λ b. false;
  add = λ t a b. same a b || t b;
  delete = λ t a b. not (same a b) && t b;
  has = λ t b. t b;
  has-empty = λ b. refl;
  has-add = λ t a b. refl;
  has-delete = λ t a b. refl;
}

-- The second speaker comes after the first has gone and repeated its BYE.
abbrev own_events : List Event
own_events =
    came speaker
    ∷ came listener
    ∷ said_bye speaker
    ∷ said_bye speaker
    ∷ came second_speaker
    ∷ removed (record speaker { received_bye = true })
    ∷ []

apart : (a : Address) → is_at a (some first_address) ≡ true → present a (listener ∷ []) ≡ 0
unfolding peer_address
apart a h = ground arith

apart_too :
    (a : Address)
    → is_at a (some (record { ip = 84281096; port = 7000 })) ≡ true
    → present a (speaker ∷ []) ≡ 0
unfolding peer_address
apart_too a h = ground arith

own-Lives : Lives OwnAddress OwnAddress [] [] own_events (second_speaker ∷ listener ∷ []) []
unfolding peer_address
own-Lives =
    comes (λ a h. refl)
      (comes apart_too (
        says_bye (there here) refl
          (says_bye_again here refl apart (comes apart (goes_after_bye speaker here stays)))))

handle_all-Tabled_example :
    (t : SessionEx) × (log : Trace) × (handle_all to_text own_events new [] ≡ done tt t log)
    × ((a : Address)
        → (tests.has (table tests log) a ≡ ltb 0 (present a (second_speaker ∷ listener ∷ [])))
          × (present a (second_speaker ∷ listener ∷ []) ≤ 1))
handle_all-Tabled_example = handle_all-Tabled tests to_text own-Lives

shared-lost_example :
    (t : SessionEx) × (log : Trace) × (handle_all to_text
        (came speaker ∷ came second_speaker ∷ leaves false speaker ∷ [])
        new
        []
      ≡ done tt t log)
    × (tests.has (table tests log) first_address ≡ false)
    × (present first_address (second_speaker ∷ []) ≡ 1)
unfolding peer_address
shared-lost_example =
    shared-lost tests to_text false speaker second_speaker first_address new [] refl refl
