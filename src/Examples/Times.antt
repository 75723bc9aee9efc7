-- ===== src/Examples/Times.antt =====
-- The theorem on the stopwatch, for a second and a half.
use greatone.Base.{pos, some, ◌≡◌, arith}
use greatone.TimeConsume.{
  TimeVal, TimeConsume, time_begin, time_count_micro_second, time_count_milli_second,
  time_count-microseconds,
}

abbrev started : TimeVal
started = record { tv_sec = 1000; tv_usec = 900000 }

abbrev ended : TimeVal
ended = record { tv_sec = 1002; tv_usec = 400999 }

abbrev unused : TimeConsume
unused = record { begin_time = started; end_time = started }

time_count-microseconds_example :
    (time_count_micro_second ended (time_begin started unused)
      ≡ some (pos 1500999, record { begin_time = started; end_time = ended }))
    × (time_count_milli_second ended (time_begin started unused)
        ≡ some (pos 1500, record { begin_time = started; end_time = ended }))
time_count-microseconds_example =
    time_count-microseconds started ended unused (omega arith, omega arith)
      (omega arith, omega arith) (omega arith) (omega arith)
