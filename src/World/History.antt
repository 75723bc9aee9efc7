-- ===== src/World/History.antt =====
-- What the calls so far have led to, read off the trace call by call.
use greatone.Base.{◌≡◌, refl, [], ◌∷◌, ◌++◌, append_assoc, append-nil}
use greatone.World.{Call, Trace}

-- A value is updated by each call, given all calls up to it.
module _ {G : Type 0} (update : G → Trace → Call → G) where
  abbrev pub replay : G → (before log : Trace) → G
  replay g before [] = g
  replay g before (c ∷ cs) = replay (update g (before ++ (c ∷ [])) c) (before ++ (c ∷ [])) cs

  pub replay-append :
      (g : G) (before cs : Trace) (c : Call)
      → replay g before (cs ++ (c ∷ []))
        ≡ update (replay g before cs) ((before ++ cs) ++ (c ∷ [])) c
  replay-append g before [] c = rw (append-nil before) refl
  replay-append g before (x ∷ cs) c =
      rw
        (
          replay-append (update g (before ++ (x ∷ [])) x) (before ++ (x ∷ [])) cs c,
          append_assoc before (x ∷ []) cs,
        )
        refl
