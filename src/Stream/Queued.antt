-- ===== src/Stream/Queued.antt =====
-- Buffers that the codec library (Media/Codec/CodecBase.cpp, Media/Codec/CodecApi.cpp) is given come
-- to its MediaCodec.
use greatone.Base.{
  ℕ, suc, ◌+◌, ◌^◌, ◌≤◌, ◌<◌, ◌≡◌, refl, ap, ℤ, Bool, true, Option, some, List, [], ◌∷◌, ◌++◌, pos,
  arith, length, take_all, append_assoc, append-nil, leb, lt→ltb, le→leb,
}
use greatone.World.{
  media, dequeue_input, copy_in, queue_input, Trace, Prog, Outcome, done, ret, ◌>>◌,
}
use greatone.CommonThread.{is_zero}
use greatone.Codec as Codec
use greatone.Codec.{
  MediaEnv, CodecBase, ApiCall, address_at, add, serve, serve_all, add_buffer, fill_input,
  copy_bytes, count_up,
}

-- The bytes that are copied into input buffers, in order.
abbrev pub copies : Trace → List (List ℕ)
copies [] = []
copies (media (copy_in address bytes) ∷ log) = bytes ∷ copies log
copies (_ ∷ log) = copies log

-- The calls that add buffers, each with its length.
abbrev pub add_all : List (List ℕ) → List ApiCall
add_all [] = []
add_all (bytes ∷ buffers) = add bytes (pos (length bytes)) ∷ add_all buffers

abbrev pub AllShort : (limit : ℕ) → List (List ℕ) → Type 0
AllShort limit [] = Unit {0}
AllShort limit (bytes ∷ buffers) = (length bytes ≤ limit) × AllShort limit buffers

-- MediaCodec answers every call, and always has an input buffer that was fetched and in which there
-- is room for `limit` bytes.
abbrev pub Ready : MediaEnv → (limit : ℕ) → Option (List (Option ℕ)) → Type 0
Ready env limit inputs =
    (log : Trace)
    → (a : ℕ) × (is_zero (env.calls.status log) ≡ true)
      × (address_at inputs (env.index log) ≡ some a)
      × (0 < a)
      × (limit ≤ env.capacity a)

-- The codec was given the bytes, in this order, and nothing else.
abbrev pub Fed : List (List ℕ) → Trace → Outcome (Option CodecBase) (Unit {0}) → Type 0
Fed bytes log result =
    (s : CodecBase) × (calls : Trace) × (result ≡ done tt (some s) (log ++ calls))
    × (copies calls ≡ bytes)

on_codec-done :
    {A : Type 0} (p : Prog CodecBase A) (s t : CodecBase) (a : A) (log log' : Trace)
    → p s log ≡ done a t log'
    → (Codec.on_codec p >> ret (pos 0)) (some s) log ≡ done (pos 0) (some t) log'
on_codec-done p s t a log log' e = rw (e, Codec.on_codec)

Fed-then :
    (p : Prog (Option CodecBase) ℤ) (q : Prog (Option CodecBase) (Unit {0})) (s t : CodecBase)
    (log : Trace) (a i : ℕ) (n : ℤ) (bytes : List ℕ) (more : List (List ℕ))
    → (let cs = media dequeue_input ∷ media (copy_in a bytes) ∷ media (queue_input i n) ∷ [] in
        (p (some s) log ≡ done (pos 0) (some t) (log ++ cs))
        × Fed more (log ++ cs) (q (some t) (log ++ cs)))
    → Fed (bytes ∷ more) log ((p >> q) (some s) log)
Fed-then p q s t log a i n bytes more (e, (u, calls, ran, given)) =
    let cs : Trace = media dequeue_input ∷ media (copy_in a bytes) ∷ media (queue_input i n) ∷ [] in
    (u, cs ++ calls, rw (e, ran, append_assoc log cs calls), ap (λ x. bytes ∷ x) given)

module _ (env : MediaEnv) (limit : ℕ) (inputs outputs : Option (List (Option ℕ)))
    (has_callback : Bool) (ready : Ready env limit inputs) where
  abbrev at : ℕ → CodecBase
  at count = record {
    inputs = inputs;
    outputs = outputs;
    has_callback = has_callback;
    count = count;
  }

  abbrev asked : Trace → Trace
  asked log = log ++ (media dequeue_input ∷ [])

  abbrev input_calls : Trace → List ℕ → Trace
  input_calls log bytes =
      media dequeue_input
      ∷ media (copy_in (ready (asked log)).0 bytes)
      ∷ media (queue_input (env.index (asked log)) (pos (length bytes)))
      ∷ []

  add_buffer-queues :
      (bytes : List ℕ) (count : ℕ) (log : Trace)
      → length bytes ≤ limit
      → suc count < 2 ^ 31
      → add_buffer env bytes (pos (length bytes)) (at count) log
        ≡ done
            (env.calls.status (log ++ input_calls log bytes))
            (at (suc count))
            (log ++ input_calls log bytes)
  unfolding add_buffer fill_input copy_bytes count_up
  add_buffer-queues bytes count log small few =
      let (a, zero_status, known, real, holds) = ready (asked log) in
      let lies : leb (length bytes) (length bytes) ≡ true =
        le→leb (length bytes) (length bytes) (omega arith) in
      let fits : leb (length bytes) (env.capacity a) ≡ true =
        le→leb (length bytes) (env.capacity a) (omega arith) in
      let first : Trace = media dequeue_input ∷ [] in
      let second : Trace = media (copy_in a bytes) ∷ [] in
      let third : Trace = media (queue_input (env.index (asked log)) (pos (length bytes))) ∷ [] in
      rw (
        zero_status,
        known,
        lt→ltb 0 a real,
        lies,
        fits,
        take_all (length bytes) bytes (omega arith),
        lt→ltb (suc count) (2 ^ 31) few,
        append_assoc (asked log) second third,
        append_assoc log first (second ++ third),
      )

  add-queues :
      (bytes : List ℕ) (count : ℕ) (log : Trace)
      → length bytes ≤ limit
      → suc count < 2 ^ 31
      → serve env (add bytes (pos (length bytes))) (some (at count)) log
        ≡ done (pos 0) (some (at (suc count))) (log ++ input_calls log bytes)
  unfolding serve
  add-queues bytes count log small few =
      on_codec-done (add_buffer env bytes (pos (length bytes))) (at count) _ _ log _
        (add_buffer-queues bytes count log small few)

  add_all-Fed :
      (buffers : List (List ℕ)) (count : ℕ) (log : Trace)
      → AllShort limit buffers
      → count + length buffers < 2 ^ 31
      → Fed buffers log (serve_all env (add_all buffers) (some (at count)) log)
  unfolding serve_all
  add_all-Fed [] count log all few = (at count, [], rw (append-nil log), refl)
  add_all-Fed (bytes ∷ buffers) count log (short, all) few =
      Fed-then (serve env (add bytes (pos (length bytes)))) (serve_all env (add_all buffers))
        (at count) (at (suc count)) log (ready (asked log)).0 (env.index (asked log))
        (pos (length bytes)) bytes buffers
        (
          add-queues bytes count log short (omega arith),
          add_all-Fed buffers (suc count) (log ++ input_calls log bytes) all (omega arith),
        )

-- With room for each of the buffers, and fewer than 2^31 given, MediaCodec is given them all, in order.
pub add_all-given :
    (env : MediaEnv) (limit : ℕ) (s : CodecBase) (buffers : List (List ℕ)) (log : Trace)
    → Ready env limit s.inputs
    → AllShort limit buffers
    → s.count + length buffers < 2 ^ 31
    → Fed buffers log (serve_all env (add_all buffers) (some s) log)
add_all-given env limit s buffers log ready all few =
    add_all-Fed env limit s.inputs s.outputs s.has_callback ready buffers s.count log all few
