-- ===== src/Codec/Service.antt =====
-- The functions of Media/Codec/CodecApi.cpp, called in any order.
use greatone.Base.{
  ℕ, suc, ◌+◌, ◌^◌, ◌≤◌, ◌<◌, ◌≡◌, subst, Option, none, some, List, [], ◌∷◌, pos, negsuc, length,
  arith, true,
}
use greatone.World.{Trace, Outcome, done, crash, after, ret}
use greatone.Codec.{
  MediaEnv, CodecBase, ApiCall, codec_create, register_call, start, stop, add, turn, start_codec,
  add_buffer, get_codec_buffer, serve, serve_all,
}
use greatone.Codec.Granted.{
  granted-append, Mirrors, Stays, InputsGranted, OutputsGranted, start_codec-Stays,
  add_buffer-Stays, get_codec_buffer-Stays,
}

add-suc : (m n : ℕ) → m + suc n ≡ suc m + n
add-suc m n = omega arith

module _ (env : MediaEnv) where
  -- The calls that can be served: an added buffer has the bytes that it says, at most `limit`.
  abbrev pub Fits : (limit : ℕ) → List ApiCall → Type 0
  Fits limit [] = Unit {0}
  Fits limit (add buf (pos len) ∷ calls) = (len ≤ length buf) × (len ≤ limit) × Fits limit calls
  Fits limit (add buf (negsuc len) ∷ calls) = ⊥
  Fits limit (_ ∷ calls) = Fits limit calls

  abbrev pub adds : List ApiCall → ℕ
  adds [] = 0
  adds (add buf len ∷ calls) = suc (adds calls)
  adds (_ ∷ calls) = adds calls

  -- What holds of `gCodec`.
  abbrev pub Api : (n : ℕ) → Option CodecBase → Trace → Type 0
  Api n none log = Unit {0}
  Api n (some s) log = Mirrors env n s log

  abbrev pub Serves : {A : Type 0} → (n : ℕ) → Outcome (Option CodecBase) A → Type 0
  Serves n (done a s log) = Api n s log
  Serves n crash = ⊥

  -- A method of the object, and then what follows.
  on_codec-Serves :
      {A B : Type 0} (n : ℕ) (p : Outcome CodecBase A)
      (k : Option CodecBase → Trace → Outcome (Option CodecBase) B) (m : ℕ)
      → Stays env n p
      → ((s : CodecBase) (log : Trace) → Mirrors env n s log → Serves m (k (some s) log))
      → Serves m (
          after
            (after
              (elim p [ done a t log' ↦ done tt (some t) log' | crash ↦ crash ])
              (λ _. ret (pos 0)))
            (λ _. k))
  on_codec-Serves n (done a s log) k m h next = next s log h
  on_codec-Serves n crash k m h next = absurd h

  serve_all-Api :
      (limit n : ℕ) (calls : List ApiCall) (o : Option CodecBase) (log : Trace)
      → InputsGranted env limit
      → OutputsGranted env
      → Fits limit calls
      → n + adds calls < 2 ^ 31
      → Api n o log
      → Serves (n + adds calls) (serve_all env calls o log)
  unfolding serve_all serve
  serve_all-Api limit n [] o log ins outs fit bound h = subst (λ m. Api m o log) (omega arith) h
  serve_all-Api limit n (codec_create flags surface encoder ∷ calls) none log ins outs fit bound h =
      serve_all-Api limit n calls (some _) _ ins outs fit bound
        (simp (granted-append), simp (granted-append), omega arith)
  serve_all-Api limit n (codec_create flags surface encoder ∷ calls) (some s) log ins outs fit bound
        h =
      serve_all-Api limit n calls (some s) log ins outs fit bound h
  serve_all-Api limit n (stop ∷ calls) none log ins outs fit bound h =
      serve_all-Api limit n calls none log ins outs fit bound h
  serve_all-Api limit n (stop ∷ calls) (some s) log ins outs fit bound h =
      serve_all-Api limit n calls none _ ins outs fit bound tt
  serve_all-Api limit n (register_call ∷ calls) none log ins outs fit bound h =
      serve_all-Api limit n calls none log ins outs fit bound h
  serve_all-Api limit n (start ∷ calls) none log ins outs fit bound h =
      serve_all-Api limit n calls none log ins outs fit bound h
  serve_all-Api limit n (turn fuel ∷ calls) none log ins outs fit bound h =
      serve_all-Api limit n calls none log ins outs fit bound h
  serve_all-Api limit n (add buf (pos len) ∷ calls) none log ins outs fit bound h =
      rw (add-suc n (adds calls))
        (serve_all-Api limit (suc n) calls none log ins outs fit.2 (omega (arith, bound)) h)
  serve_all-Api limit n (add buf (negsuc len) ∷ calls) o log ins outs fit bound h = absurd fit
  serve_all-Api limit n (register_call ∷ calls) (some s) log ins outs fit bound h =
      serve_all-Api limit n calls (some (record s { has_callback = true })) log ins outs fit bound h
  serve_all-Api limit n (start ∷ calls) (some s) log ins outs fit bound h =
      on_codec-Serves n (start_codec env s log) (serve_all env calls) (n + adds calls)
        (start_codec-Stays env n s log h)
        (λ t l m. serve_all-Api limit n calls (some t) l ins outs fit bound m)
  serve_all-Api limit n (add buf (pos len) ∷ calls) (some s) log ins outs fit bound h =
      rw (add-suc n (adds calls)) (
        on_codec-Serves (suc n) (add_buffer env buf (pos len) s log) (serve_all env calls)
          (suc n + adds calls)
          (add_buffer-Stays env limit n buf len s log ins fit.0 fit.1 (omega (arith, bound)) h)
          (λ t l m.
            serve_all-Api limit (suc n) calls (some t) l ins outs fit.2 (omega (arith, bound)) m))
  serve_all-Api limit n (turn fuel ∷ calls) (some s) log ins outs fit bound h =
      on_codec-Serves n (get_codec_buffer env fuel s log) (serve_all env calls) (n + adds calls)
        (get_codec_buffer-Stays env n fuel s log outs h)
        (λ t l m. serve_all-Api limit n calls (some t) l ins outs fit bound m)

  -- From the beginning, where MediaCodec takes out only buffers that it gave out, and each added
  -- buffer has the bytes that it says and fits, any calls of the library, fewer than 2^31 buffers
  -- among them, in any order, repeated or missing calls included, go without a crash; and at the end
  -- there is no codec, or one whose arrays are those that MediaCodec gave out since it was created,
  -- and which counts no more buffers than were added.
  pub serve_all-Serves :
      (limit : ℕ) (calls : List ApiCall)
      → InputsGranted env limit
      → OutputsGranted env
      → Fits limit calls
      → adds calls < 2 ^ 31
      → Serves (adds calls) (serve_all env calls none [])
  serve_all-Serves limit calls ins outs fit bound =
      subst (λ n. Serves n (serve_all env calls none [])) (omega arith)
        (serve_all-Api limit 0 calls none [] ins outs fit (omega arith) tt)
