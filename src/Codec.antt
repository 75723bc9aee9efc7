-- ===== src/Codec.antt =====
-- The library behind the codec functions: the class CodecBase (Media/Codec/CodecBase.cpp, with
-- CreateCodec in base4 to base6) and the functions of Media/Codec/CodecApi.cpp on the pointer
-- `gCodec`. Android's MediaCodec is a parameter.
pub mod Drain
pub mod Granted
pub mod Service
pub mod Race
use greatone.Base.{
  ℕ, zero, suc, ◌-◌, ◌^◌, ◌%◌, Bool, true, false, ◌&&◌, Option, none, some, List, [], ◌∷◌, ◌++◌, ℤ,
  pos, negsuc, ltb, leb, ◌==◌, if◌then◌else◌, length, take, get_elem?, of_word, Option-cases,
}
use greatone.World.{
  media, media_create, media_configure, media_start, media_stop, get_buffers, dequeue_input,
  copy_in, queue_input, dequeue_output, on_buffer, release_output, system, run_thread, request_exit,
  Trace, Env, Prog, Outcome, done, crash, ret, ◌>>=◌, ◌>>◌, after, get, put, tell, ask,
}
use greatone.CommonThread.{is_zero}

-- What MediaCodec answers, given all calls up to the one that returns: the statuses, the index of a
-- buffer that is taken out, the size and the flags of an output, and the addresses of the buffers
-- (`none` for an element that is missing); and how many bytes a buffer at an address holds.
pub record MediaEnv : Type 0 where
  pub calls : Env
  pub index : Trace → ℕ
  pub size : Trace → ℕ
  pub flags : Trace → ℕ
  pub buffers : Trace → List (Option ℕ)
  pub capacity : ℕ → ℕ

-- The arrays of addresses (NULL, or with an entry for each buffer), whether a callback is
-- registered, and the buffers given and not yet asked for.
pub record CodecBase : Type 0 where
  pub inputs : Option (List (Option ℕ))
  pub outputs : Option (List (Option ℕ))
  pub has_callback : Bool
  pub count : ℕ

-- The constructor.
unfoldable pub new : (encoder : Bool) → Prog (Option CodecBase) CodecBase
new encoder = do
  tell (media (media_create encoder))
  ret (record { inputs = none; outputs = none; has_callback = false; count = 0 })

-- `registerBufferCall`.
unfoldable pub register_buffer_call : Prog CodecBase (Unit {0})
register_buffer_call = do s ← get; put (record s { has_callback = true })

-- An entry of such an array: through NULL, out of range, and where no address was written, it is
-- undefined.
abbrev pub address_at : Option (List (Option ℕ)) → ℕ → Option ℕ
address_at none index = none
address_at (some addresses) index = elim (get_elem? addresses index) [
  | none ↦ none
  | some entry ↦ entry
]

-- `memcpy` of `len` bytes to an address, `len` being converted to a `size_t`.
unfoldable pub copy_bytes :
    (capacity : ℕ → ℕ) (address : Option ℕ) (buf : List ℕ) (len : ℤ) → Prog CodecBase (Unit {0})
copy_bytes capacity (some address) buf (pos n) s log =
    if ltb 0 address && (leb n (length buf) && leb n (capacity address))
    then tell (media (copy_in address (take n buf))) s log
    else crash
copy_bytes capacity address buf len s log = crash

-- `mCount++`; beyond the greatest `int` it is undefined.
unfoldable pub count_up : Prog CodecBase (Unit {0})
count_up s log =
    if ltb (suc s.count) (2 ^ 31) then done tt (record s { count = suc s.count }) log else crash

module _ (env : MediaEnv) where
  -- `CreateCodec`.
  unfoldable pub create_codec : (flags : ℤ) (surface : Bool) → Prog CodecBase ℤ
  create_codec flags surface = ask env.calls (media (media_configure flags surface))

  -- The two halves of `startCodec`, which fetch the addresses.
  unfoldable pub fetch_inputs : Prog CodecBase (Unit {0})
  fetch_inputs = do
    err ← ask env.calls (media (get_buffers true))
    if is_zero err
        then (λ s log. done tt (record s { inputs = some (env.buffers log) }) log)
        else ret tt

  unfoldable pub fetch_outputs : Prog CodecBase ℤ
  fetch_outputs = do
    err ← ask env.calls (media (get_buffers false))
    if is_zero err
        then (λ s log. done err (record s { outputs = some (env.buffers log) }) log)
        else ret err

  -- `startCodec`.
  unfoldable pub start_codec : Prog CodecBase ℤ
  unfolding fetch_inputs fetch_outputs
  start_codec = do
    ask env.calls (media media_start)
    fetch_inputs
    err ← fetch_outputs
    tell (system run_thread)
    ret err

  -- `stopCodec`.
  unfoldable pub stop_codec : Prog CodecBase ℤ
  stop_codec = do
    err ← ask env.calls (media media_stop)
    s ← get
    put (record s { inputs = none; outputs = none })
    tell (system request_exit)
    ret err

  -- What `addBuffer` does with the input buffer that it got.
  unfoldable pub fill_input : (buf : List ℕ) (len : ℤ) → Prog CodecBase ℤ
  unfolding copy_bytes count_up
  fill_input buf len s log =
      (do
        copy_bytes env.capacity (address_at s.inputs (env.index log)) buf len
        err ← ask env.calls (media (queue_input (env.index log) len))
        count_up
        ret err)
        s log

  -- `addBuffer`.
  unfoldable pub add_buffer : (buf : List ℕ) (len : ℤ) → Prog CodecBase ℤ
  unfolding fill_input
  add_buffer buf len = do
    err ← ask env.calls (media dequeue_input)
    if is_zero err then fill_input buf len else ret err

  -- What `getCodecBuffer` does with the output buffer that it got.
  unfoldable pub hand_out : Prog CodecBase (Unit {0})
  hand_out s log =
      if s.has_callback
      then elim (address_at s.outputs (env.index log)) [
        | none ↦ crash
        | some address ↦
            (do
              tell (media (on_buffer address (of_word (env.size log % 2 ^ 32)) (env.flags log)))
              tell (media (release_output (env.index log))))
              s log
      ]
      else tell (media (release_output (env.index log))) s log

  -- The loop of `getCodecBuffer`, as long as MediaCodec has an output; `none` when the fuel is used
  -- up.
  unfoldable pub drain : (fuel : ℕ) → Prog CodecBase (Option ℤ)
  unfolding hand_out
  drain zero = ret none
  drain (suc fuel) = do
    let rest = drain fuel
    err ← ask env.calls (media dequeue_output)
    if is_zero err then hand_out >> rest else ret (some err)

  -- `getCodecBuffer`, which the loop of the thread calls.
  unfoldable pub get_codec_buffer : (fuel : ℕ) → Prog CodecBase (Option ℤ)
  unfolding drain
  get_codec_buffer fuel = do
    s ← get
    if ltb 0 s.count
        then (do put (record s { count = s.count - 1 }); drain fuel)
        else ret (some (negsuc 0))

-- The functions of the library, and a turn of the thread's loop. `gCodec` is a CodecBase or NULL.
pub data ApiCall : Type 0 where
  codec_create : (flags : ℤ) (surface encoder : Bool) → ApiCall
  register_call start stop : ApiCall
  add : (buf : List ℕ) (len : ℤ) → ApiCall
  turn : (fuel : ℕ) → ApiCall

-- A call of a method through `gCodec`, where that is not NULL.
abbrev pub on_codec : {A : Type 0} → Prog CodecBase A → Prog (Option CodecBase) (Unit {0})
on_codec p none log = done tt none log
on_codec p (some s) log = elim (p s log) [ done a t log' ↦ done tt (some t) log' | crash ↦ crash ]

module _ (env : MediaEnv) where
  -- `CodecCreate`.
  unfoldable pub api_create : (flags : ℤ) (surface encoder : Bool) → Prog (Option CodecBase) ℤ
  unfolding new create_codec
  api_create flags surface encoder (some s) log = done (pos 0) (some s) log
  api_create flags surface encoder none log =
      (do
        made ← new encoder
        put (some made)
        on_codec (create_codec env flags surface)
        ret (pos 1))
        none log

  -- `StopCodec`.
  unfoldable pub api_stop : Prog (Option CodecBase) ℤ
  unfolding stop_codec
  api_stop none log = done (pos 0) none log
  api_stop (some s) log = (do on_codec (stop_codec env); put none; ret (pos 0)) (some s) log

  -- One call; the results of the others are 0 or nothing.
  unfoldable pub serve : ApiCall → Prog (Option CodecBase) ℤ
  unfolding api_create api_stop register_buffer_call start_codec add_buffer get_codec_buffer
  serve (codec_create flags surface encoder) = api_create flags surface encoder
  serve register_call = on_codec register_buffer_call >> ret (pos 0)
  serve start = on_codec (start_codec env) >> ret (pos 0)
  serve stop = api_stop
  serve (add buf len) = on_codec (add_buffer env buf len) >> ret (pos 0)
  serve (turn fuel) = on_codec (get_codec_buffer env fuel) >> ret (pos 0)

  -- Any calls, one after the other.
  unfoldable pub serve_all : List ApiCall → Prog (Option CodecBase) (Unit {0})
  unfolding serve
  serve_all [] = ret tt
  serve_all (call ∷ calls) = do serve call; serve_all calls
