-- ===== src/TimeConsume.antt =====
-- The class TimeConsume of temp/Common/TimeConsume.cpp, a stopwatch, where a `long` has 32 bits.
use greatone.Base.{
  ℕ, suc, ◌+◌, ◌-◌, ◌*◌, ◌/◌, ◌^◌, ◌≤◌, ◌<◌, ◌≡◌, refl, ℤ, pos, negsuc, Option, none, some, true,
  leb, ltb, lt→ltb, if◌then◌else◌, arith,
}

infixl 5 ◌>>=◌ ◌>>◌
abbrev ◌>>=◌ : {A B : Type 0} → Option A → (A → Option B) → Option B
none >>= k = none
some a >>= k = k a

abbrev ◌>>◌ : {A B : Type 0} → Option A → Option B → Option B
a >> b = a >>= λ _. b

-- `struct timeval`.
pub record TimeVal : Type 0 where
  pub tv_sec : ℕ
  pub tv_usec : ℕ

pub record TimeConsume : Type 0 where
  pub begin_time : TimeVal
  pub end_time : TimeVal

-- `TimeBegin` and `TimeEnd`, with what `gettimeofday` gives.
unfoldable pub time_begin : (now : TimeVal) → TimeConsume → TimeConsume
time_begin now t = record t { begin_time = now }

unfoldable pub time_end : (now : TimeVal) → TimeConsume → TimeConsume
time_end now t = record t { end_time = now }

-- The difference of two numbers.
abbrev minus : ℕ → ℕ → ℤ
minus a b = if leb b a then pos (a - b) else negsuc (b - a - 1)

-- The value of a `long`; a result that it has no room for is undefined.
abbrev checked : ℤ → Option ℤ
checked (pos n) = if ltb n (2 ^ 31) then some (pos n) else none
checked (negsuc n) = if ltb n (2 ^ 31) then some (negsuc n) else none

-- The difference of the two times in microseconds, and `none` where it is undefined: the four
-- results of its subtraction, multiplication, addition and subtraction in turn, each written as
-- one difference.
unfoldable pub difference : TimeConsume → Option ℤ
difference t = do
  checked (minus t.end_time.tv_sec t.begin_time.tv_sec)
  checked (minus (t.end_time.tv_sec * 1000000) (t.begin_time.tv_sec * 1000000))
  checked (minus (t.end_time.tv_sec * 1000000 + t.end_time.tv_usec) (t.begin_time.tv_sec * 1000000))
  checked (
      minus (t.end_time.tv_sec * 1000000 + t.end_time.tv_usec)
        (t.begin_time.tv_sec * 1000000 + t.begin_time.tv_usec))

-- `TimeCountMicroSecond` and `TimeCountMilliSecond`, whose division rounds towards 0.
unfoldable pub time_count_micro_second : (now : TimeVal) → TimeConsume → Option (ℤ × TimeConsume)
unfolding difference time_end
time_count_micro_second now t = do time ← difference (time_end now t); some (time, time_end now t)

abbrev div_1000 : ℤ → ℤ
div_1000 (pos n) = pos (n / 1000)
div_1000 (negsuc n) = if ltb (suc n) 1000 then pos 0 else negsuc (suc n / 1000 - 1)

unfoldable pub time_count_milli_second : (now : TimeVal) → TimeConsume → Option (ℤ × TimeConsume)
unfolding difference time_end
time_count_milli_second now t = do
  time ← difference (time_end now t)
  some (div_1000 time, time_end now t)

-- A time in microseconds.
abbrev pub microseconds : TimeVal → ℕ
microseconds v = v.tv_sec * 1000000 + v.tv_usec

-- The values that the system gives.
abbrev pub IsTime : TimeVal → Type 0
IsTime v = (v.tv_sec < 2 ^ 31) × (v.tv_usec < 1000000)

-- A difference that is not negative and that a `long` has room for.
checked-minus : (a b : ℕ) → b ≤ a → a - b < 2 ^ 31 → checked (minus a b) ≡ some (pos (a - b))
checked-minus a b later short =
    let order : leb b a ≡ true = ground arith in rw (order, lt→ltb (a - b) (2 ^ 31) short)

difference-microseconds :
    (t : TimeConsume)
    → IsTime t.begin_time
    → IsTime t.end_time
    → microseconds t.begin_time ≤ microseconds t.end_time
    → microseconds t.end_time < t.begin_time.tv_sec * 1000000 + 2 ^ 31
    → difference t ≡ some (pos (microseconds t.end_time - microseconds t.begin_time))
unfolding difference
difference-microseconds t (b0, b1) (e0, e1) later short =
    let early : t.begin_time.tv_sec ≤ t.end_time.tv_sec = omega (arith, later, b1, e1) in
    rw
      (
        checked-minus t.end_time.tv_sec t.begin_time.tv_sec early (omega (arith, e0)),
        checked-minus (t.end_time.tv_sec * 1000000) (t.begin_time.tv_sec * 1000000)
            (omega (arith, early)) (omega (arith, short)),
        checked-minus (microseconds t.end_time) (t.begin_time.tv_sec * 1000000)
            (omega (arith, later)) (omega (arith, short)),
        checked-minus (microseconds t.end_time) (microseconds t.begin_time) later
            (omega (arith, short)),
      )
      refl

-- Between two times, the first not after the second, where the second comes less than 2^31
-- microseconds (about 35 minutes) after the whole second in which the first lies: no sum overflows a
-- `long` of 32 bits, and the stopwatch counts the microseconds exactly, and the whole milliseconds
-- among them.
pub time_count-microseconds :
    (b now : TimeVal) (t : TimeConsume)
    → IsTime b
    → IsTime now
    → microseconds b ≤ microseconds now
    → microseconds now < b.tv_sec * 1000000 + 2 ^ 31
    → (time_count_micro_second now (time_begin b t)
        ≡ some (pos (microseconds now - microseconds b), record { begin_time = b; end_time = now }))
      × (time_count_milli_second now (time_begin b t)
          ≡ some (
            pos ((microseconds now - microseconds b) / 1000),
            record { begin_time = b; end_time = now },
          ))
unfolding time_count_micro_second time_count_milli_second time_begin time_end
time_count-microseconds b now t hb hnow later short =
    let counted =
      difference-microseconds (record { begin_time = b; end_time = now }) hb hnow later short in
    (rw counted refl, rw counted refl)
