-- ===== src/CodecSender/Frame.antt =====
-- `VideoSource` of Media/CodecSender.cpp turns a camera frame from NV21 to NV12, in place: it
-- exchanges the two bytes of each pair of the chroma plane.
use greatone.Base.{
  ℕ, zero, suc, ◌+◌, ◌*◌, ◌/◌, ◌<◌, ◌≡◌, refl, sym, ◌∙◌, ap, Bool, true, false, Option, none, some,
  List, [], ◌∷◌, ◌++◌, arith, ltb, lt→ltb, ◌^◌, if◌then◌else◌, length, get_elem?, set, append_assoc,
  length-append,
}

infixl 5 ◌>>=◌
abbrev ◌>>=◌ : {A B : Type 0} → Option A → (A → Option B) → Option B
none >>= k = none
some a >>= k = k a

-- `tmp = data[a]; data[a] = data[a+1]; data[a+1] = tmp;`, and `none` for an access behind the data.
unfoldable pub swap_at : List ℕ → ℕ → Option (List ℕ)
swap_at frame a = do
  tmp ← get_elem? frame a
  other ← get_elem? frame (suc a)
  some (set (set frame a other) (suc a) tmp)

-- The loop from the index `i` on.
unfoldable pub swap_loop : (fuel ylen uvlen i : ℕ) → List ℕ → Option (List ℕ)
swap_loop zero ylen uvlen i frame = none
swap_loop (suc k) ylen uvlen i frame =
    let rest = swap_at frame (ylen + i) >>= λ f. swap_loop k ylen uvlen (i + 2) f in
    if ltb i uvlen then rest else some frame

-- The frame that is handed to the encoder, of `len` bytes; also `none` where `length*2` overflows.
unfoldable pub nv21_to_nv12 : List ℕ → (len : ℕ) → Option (List ℕ)
nv21_to_nv12 frame len =
    let ylen = len * 2 / 3 in
    let uvlen = ylen / 2 in
    if ltb (len * 2) (2 ^ 31) then swap_loop (suc uvlen) ylen uvlen 0 frame else none

-- The pairs of a list, each the other way round.
abbrev pub swap_pairs : List ℕ → List ℕ
swap_pairs [] = []
swap_pairs (a ∷ []) = a ∷ []
swap_pairs (a ∷ b ∷ cs) = b ∷ a ∷ swap_pairs cs

pub swap_pairs-swap_pairs : (cs : List ℕ) → swap_pairs (swap_pairs cs) ≡ cs
swap_pairs-swap_pairs [] = refl
swap_pairs-swap_pairs (a ∷ []) = refl
swap_pairs-swap_pairs (a ∷ b ∷ cs) = ap (λ x. a ∷ b ∷ x) (swap_pairs-swap_pairs cs)

pub length-swap_pairs : (cs : List ℕ) → length (swap_pairs cs) ≡ length cs
length-swap_pairs [] = refl
length-swap_pairs (a ∷ []) = refl
length-swap_pairs (a ∷ b ∷ cs) = ap (λ n. suc (suc n)) (length-swap_pairs cs)

-- The two accesses behind a prefix, and the two writes there.
get_elem?-append :
    (pre rest : List ℕ) (n m : ℕ)
    → m ≡ length pre + n
    → get_elem? (pre ++ rest) m ≡ get_elem? rest n
get_elem?-append [] rest n m e = ap (get_elem? rest) (omega arith)
get_elem?-append (p ∷ pre) rest n zero e = absurd (omega arith)
get_elem?-append (p ∷ pre) rest n (suc m) e = get_elem?-append pre rest n m (omega arith)

set-append :
    (pre rest : List ℕ) (n m v : ℕ)
    → m ≡ length pre + n
    → set (pre ++ rest) m v ≡ pre ++ set rest n v
set-append [] rest n m v e = ap (λ k. set rest k v) (omega arith)
set-append (p ∷ pre) rest n zero v e = absurd (omega arith)
set-append (p ∷ pre) rest n (suc m) v e = ap (λ l. p ∷ l) (set-append pre rest n m v (omega arith))

swap_at-append :
    (pre rest : List ℕ) (a b : ℕ)
    → swap_at (pre ++ (a ∷ b ∷ rest)) (length pre) ≡ some (pre ++ (b ∷ a ∷ rest))
unfolding swap_at
swap_at-append pre rest a b =
    let first : get_elem? (pre ++ (a ∷ b ∷ rest)) (length pre) ≡ some a =
      get_elem?-append pre (a ∷ b ∷ rest) 0 _ (omega arith) in
    let second : get_elem? (pre ++ (a ∷ b ∷ rest)) (suc (length pre)) ≡ some b =
      get_elem?-append pre (a ∷ b ∷ rest) 1 _ (omega arith) in
    let write : set (pre ++ (a ∷ b ∷ rest)) (length pre) b ≡ pre ++ (b ∷ b ∷ rest) =
      set-append pre (a ∷ b ∷ rest) 0 _ b (omega arith) in
    let write' : set (pre ++ (b ∷ b ∷ rest)) (suc (length pre)) a ≡ pre ++ (b ∷ a ∷ rest) =
      set-append pre (b ∷ b ∷ rest) 1 _ a (omega arith) in
    rw (swap_at, first, second, write, write')

-- Whether the pairs use up the list.
abbrev pub is_paired : List ℕ → Bool
is_paired [] = true
is_paired (a ∷ []) = false
is_paired (a ∷ b ∷ cs) = is_paired cs

swap_loop-append :
    (k ylen uvlen i : ℕ) (pre uv rest : List ℕ)
    → length pre ≡ ylen + i
    → i + length uv ≡ uvlen
    → is_paired uv ≡ true
    → length uv < k
    → swap_loop k ylen uvlen i (pre ++ (uv ++ rest)) ≡ some (pre ++ (swap_pairs uv ++ rest))
unfolding swap_loop
swap_loop-append zero ylen uvlen i pre uv rest at e p fuel = absurd (omega arith)
swap_loop-append (suc k) ylen uvlen i pre [] rest at e p fuel =
    let over : ltb i uvlen ≡ false = ground arith in rw over
swap_loop-append (suc k) ylen uvlen i pre (a ∷ []) rest at e p fuel = cc
swap_loop-append (suc k) ylen uvlen i pre (a ∷ b ∷ cs) rest at e p fuel =
    let more : ltb i uvlen ≡ true = ground arith in
    let here =
      ap (λ n. swap_at (pre ++ (a ∷ b ∷ (cs ++ rest))) n) (sym at)
      ∙ swap_at-append pre (cs ++ rest) a b in
    rw (more, here, ← append_assoc pre (b ∷ a ∷ []) (cs ++ rest))
      (swap_loop-append k ylen uvlen (i + 2) (pre ++ (b ∷ a ∷ [])) cs rest
          (omega (arith, length-append pre (b ∷ a ∷ []))) (omega arith) p (omega arith)
        ∙ ap some (append_assoc pre (b ∷ a ∷ []) (swap_pairs cs ++ rest)))

-- A frame of fewer than 2^30 bytes whose chroma plane consists of pairs leaves with the luminance and all behind the chroma
-- as they were and each chroma pair exchanged, and nothing outside the frame is accessed.
pub nv21_to_nv12-swaps :
    (y uv rest : List ℕ) (len : ℕ)
    → len < 2 ^ 30
    → length y ≡ len * 2 / 3
    → length uv ≡ len * 2 / 3 / 2
    → is_paired uv ≡ true
    → nv21_to_nv12 (y ++ (uv ++ rest)) len ≡ some (y ++ (swap_pairs uv ++ rest))
unfolding nv21_to_nv12
nv21_to_nv12-swaps y uv rest len small in_y in_uv paired =
    rw (lt→ltb (len * 2) (2 ^ 31) (omega arith)) (
      swap_loop-append (suc (len * 2 / 3 / 2)) (len * 2 / 3) (len * 2 / 3 / 2) 0 y uv rest
        (omega arith) (omega arith) paired (omega arith))
