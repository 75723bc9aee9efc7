-- ===== src/Receive/Delivery.antt =====
-- What the loop of RtpReceive delivers.
use greatone.Base.{
  ℕ, zero, suc, ◌+◌, ◌≡◌, refl, sym, ap, ap₂, subst, ◌≤◌, ◌-◌, ◌∙◌, Bool, true, false, List, [],
  ◌∷◌, ◌++◌, arith, if◌then◌else◌, Bool-cases, inl, inr, append_assoc,
}
use greatone.Receive.Defs.{
  Packet, Event, begin_data_access, end_data_access, usleep, receive_source, delete_packet,
  Progress, progress, emit, and_then, has_payload, handle_packet, next_packets, next_sources,
  end_pass, thread_loop,
}

-- The packets given to the callback, and those deleted, in order.
abbrev pub received : List Event → List Packet
received [] = []
received (receive_source p ∷ es) = p ∷ received es
received (begin_data_access ∷ es) = received es
received (end_data_access ∷ es) = received es
received (usleep ∷ es) = received es
received (delete_packet p ∷ es) = received es

abbrev pub deleted : List Event → List Packet
deleted [] = []
deleted (receive_source p ∷ es) = deleted es
deleted (begin_data_access ∷ es) = deleted es
deleted (end_data_access ∷ es) = deleted es
deleted (usleep ∷ es) = deleted es
deleted (delete_packet p ∷ es) = p ∷ deleted es

received-append : (es fs : List Event) → received (es ++ fs) ≡ received es ++ received fs
received-append [] fs = refl
received-append (receive_source p ∷ es) fs = ap (λ x. p ∷ x) (received-append es fs)
received-append (begin_data_access ∷ es) fs = received-append es fs
received-append (end_data_access ∷ es) fs = received-append es fs
received-append (usleep ∷ es) fs = received-append es fs
received-append (delete_packet p ∷ es) fs = received-append es fs

deleted-append : (es fs : List Event) → deleted (es ++ fs) ≡ deleted es ++ deleted fs
deleted-append [] fs = refl
deleted-append (receive_source p ∷ es) fs = deleted-append es fs
deleted-append (begin_data_access ∷ es) fs = deleted-append es fs
deleted-append (end_data_access ∷ es) fs = deleted-append es fs
deleted-append (usleep ∷ es) fs = deleted-append es fs
deleted-append (delete_packet p ∷ es) fs = ap (λ x. p ∷ x) (deleted-append es fs)

-- The packets with a payload.
abbrev pub with_payload : List Packet → List Packet
with_payload [] = []
with_payload (p ∷ ps) = if has_payload p then p ∷ with_payload ps else with_payload ps

with_payload-append :
    (ps qs : List Packet) → with_payload (ps ++ qs) ≡ with_payload ps ++ with_payload qs
with_payload-append [] qs = refl
with_payload-append (p ∷ ps) qs = elim (Bool-cases (has_payload p)) [
  | inl full ↦ rw (full, with_payload-append ps qs)
  | inr empty ↦ rw (empty, with_payload-append ps qs)
]

abbrev pub join : {A : Type 0} → List (List A) → List A
join [] = []
join (xs ∷ xss) = xs ++ join xss

-- The tests of `mRunning` that the packets of a source, the sources of a pass, and the passes take.
abbrev pub packet_tests : List Packet → ℕ
packet_tests [] = 1
packet_tests (p ∷ ps) = if has_payload p then 2 + packet_tests ps else 1 + packet_tests ps

abbrev pub source_tests : List (List Packet) → ℕ
source_tests [] = 0
source_tests (ps ∷ sources) = packet_tests ps + (1 + source_tests sources)

abbrev pub pass_tests : List (List (List Packet)) → ℕ
pass_tests [] = 0
pass_tests (sources ∷ passes) = 1 + (source_tests sources + pass_tests passes)

-- Went through all of the packets, with `j` tests left.
Handled : List Packet → ℕ → Progress → Type 0
Handled ps j (progress k es r) =
    (k ≡ j) × (r ≡ false) × (received es ≡ with_payload ps) × (deleted es ≡ ps)

emit-Handled_empty :
    (p : Packet) (ps : List Packet) (j : ℕ) (q : Progress)
    → has_payload p ≡ false
    → Handled ps j q
    → Handled (p ∷ ps) j (emit (delete_packet p ∷ []) q)
unfolding Handled
emit-Handled_empty p ps j (progress k es r) empty (at, goes, got, gone) =
    (at, goes, (rw empty got), ap (λ x. p ∷ x) gone)

emit-Handled_full :
    (p : Packet) (ps : List Packet) (j : ℕ) (q : Progress)
    → has_payload p ≡ true
    → Handled ps j q
    → Handled (p ∷ ps) j (emit (receive_source p ∷ delete_packet p ∷ []) q)
unfolding Handled
emit-Handled_full p ps j (progress k es r) full (at, goes, got, gone) =
    (at, goes, (rw full (ap (λ x. p ∷ x) got)), ap (λ x. p ∷ x) gone)

handle_packet-Handled :
    (p : Packet) (ps : List Packet) (j k : ℕ) (rest : ℕ → Progress) (b : Bool)
    → has_payload p ≡ b
    → suc k ≡ (if b then 2 + packet_tests ps else 1 + packet_tests ps) + j
    → ((i : ℕ) → i ≡ packet_tests ps + j → Handled ps j (rest i))
    → Handled (p ∷ ps) j (handle_packet b true k p rest)
unfolding handle_packet
handle_packet-Handled p ps j k rest false empty e h =
    emit-Handled_empty p ps j (rest k) empty (h k (omega arith))
handle_packet-Handled p ps j zero rest true full e h = absurd (omega arith)
handle_packet-Handled p ps j (suc k) rest true full e h =
    emit-Handled_full p ps j (rest k) full (h k (omega arith))

next_packets-Handled :
    (ps : List Packet) (k j : ℕ) → k ≡ packet_tests ps + j → Handled ps j (next_packets true k ps)
unfolding next_packets Handled
next_packets-Handled [] zero j e = absurd (omega arith)
next_packets-Handled [] (suc k) j e = (omega arith, refl, refl, refl)
next_packets-Handled (p ∷ ps) zero j e = absurd (no_test (has_payload p) e)
  where
    no_test : (b : Bool) → 0 ≡ (if b then 2 + packet_tests ps else 1 + packet_tests ps) + j → ⊥
    no_test true e = omega arith
    no_test false e = omega arith
next_packets-Handled (p ∷ ps) (suc k) j e =
    handle_packet-Handled p ps j k (λ i. next_packets true i ps) (has_payload p) refl e
      (λ i e'. next_packets-Handled ps i j e')

emit-Handled :
    (es : List Event) (ps qs : List Packet) (j : ℕ) (q : Progress)
    → received es ≡ with_payload ps
    → deleted es ≡ ps
    → Handled qs j q
    → Handled (ps ++ qs) j (emit es q)
unfolding Handled
emit-Handled es ps qs j (progress k fs r) got gone (at, goes, got', gone') = (
  at,
  goes,
  received-append es fs ∙ ap₂ (λ x y. x ++ y) got got' ∙ sym (with_payload-append ps qs),
  deleted-append es fs ∙ ap₂ (λ x y. x ++ y) gone gone',
)

and_then-Handled :
    (q : Progress) (ps qs : List Packet) (i j : ℕ) (rest : ℕ → Progress)
    → Handled ps i q
    → Handled qs j (rest i)
    → Handled (ps ++ qs) j (and_then q rest)
unfolding Handled
and_then-Handled (progress k es true) ps qs i j rest (at, goes, got, gone) h = cc
and_then-Handled (progress k es false) ps qs i j rest (at, goes, got, gone) h =
    subst (λ x. Handled (ps ++ qs) j (emit es (rest x))) (sym at)
      (emit-Handled es ps qs j (rest i) got gone h)

next_sources-Handled :
    (sources : List (List Packet)) (k j : ℕ)
    → k ≡ source_tests sources + j
    → Handled (join sources) j (next_sources true k sources)
unfolding next_sources Handled
next_sources-Handled [] k j e = (omega arith, refl, refl, refl)
next_sources-Handled (ps ∷ sources) k j e =
    and_then-Handled (next_packets true k ps) ps (join sources) (suc (source_tests sources + j)) j _
      (next_packets-Handled ps k (suc (source_tests sources + j)) (omega arith))
      (next_sources-Handled sources (source_tests sources + j) j refl)

-- Delivers and deletes all of the packets.
Delivered : List Packet → List Event → Type 0
Delivered ps es = (received es ≡ with_payload ps) × (deleted es ≡ ps)

end_pass-Delivered :
    (q : Progress) (ps qs : List Packet) (j : ℕ) (rest : ℕ → List Event)
    → Handled ps j q
    → Delivered qs (rest j)
    → Delivered (ps ++ qs) (end_pass q rest)
unfolding Handled Delivered
end_pass-Delivered (progress k es true) ps qs j rest (at, goes, got, gone) h = cc
end_pass-Delivered (progress k es false) ps qs j rest (at, goes, got, gone) (got', gone') =
    let reach = ap rest at in
    (
      received-append es _
          ∙ ap₂ (λ x y. x ++ y) got (ap received reach ∙ got')
          ∙ sym (with_payload-append ps qs),
      deleted-append es _ ∙ ap₂ (λ x y. x ++ y) gone (ap deleted reach ∙ gone'),
    )

join-append : {A : Type 0} (xss yss : List (List A)) → join (xss ++ yss) ≡ join xss ++ join yss
join-append [] yss = refl
join-append (xs ∷ xss) yss =
    ap (λ x. xs ++ x) (join-append xss yss) ∙ sym (append_assoc xs (join xss) (join yss))

thread_loop-Delivered :
    (passes : List (List (List Packet))) (k : ℕ)
    → pass_tests passes ≤ k
    → Delivered (join (join passes)) (thread_loop true k passes)
unfolding Delivered thread_loop
thread_loop-Delivered [] zero fits = (refl, refl)
thread_loop-Delivered [] (suc k) fits = (refl, refl)
thread_loop-Delivered (sources ∷ passes) zero fits = absurd (omega arith)
thread_loop-Delivered (sources ∷ passes) (suc k) fits =
    let left = k - source_tests sources in
    subst (λ x. Delivered x (thread_loop true (suc k) (sources ∷ passes)))
      (sym (join-append sources (join passes)))
      (end_pass-Delivered (next_sources true k sources) (join sources) (join (join passes)) left _
        (next_sources-Handled sources k left (omega arith))
        (thread_loop-Delivered passes left (omega arith)))

-- With a callback, and while no other thread clears `mRunning` before the passes are through (it is
-- read as set as often as they test it), every packet of every source that has a payload goes to
-- the callback once, in the order in which the packets are found, and every packet is deleted once,
-- in that order.
pub thread_loop-delivers :
    (passes : List (List (List Packet))) (k : ℕ)
    → pass_tests passes ≤ k
    → (received (thread_loop true k passes) ≡ with_payload (join (join passes)))
      × (deleted (thread_loop true k passes) ≡ join (join passes))
unfolding Delivered
thread_loop-delivers passes k fits = thread_loop-Delivered passes k fits
