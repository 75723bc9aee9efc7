-- ===== src/CommonThread.antt =====
-- The class CommonThread of Common/CommonThread.cpp (temp/Common/CommonThread.cpp is the same): a
-- thread that runs `threadLoop` once, and a flag that asks it to end.
use greatone.Base.{ℕ, Bool, true, false, ℤ, pos, negsuc, if◌then◌else◌, ◌==◌}
use greatone.World.{
  system, pthread_create, pthread_join, pthread_detach, Env, Prog, Outcome, done, crash, ret, ◌>>=◌,
  ◌>>◌, get, put, tell, ask,
}

pub record CommonThread : Type 0 where
  pub running : Bool

-- The constructor.
unfoldable pub new : CommonThread
new = record { running = false }

-- The status 0.
abbrev pub is_zero : ℤ → Bool
is_zero (pos n) = n == 0
is_zero (negsuc n) = false

-- `StartThread`; it does not set the flag.
unfoldable pub start_thread : Env → Prog CommonThread Bool
start_thread env = do
  status ← ask env (system (pthread_create false))
  if is_zero status then ret true else ret false

-- `StopThread`.
unfoldable pub stop_thread : Prog CommonThread Bool
stop_thread = do s ← get; put (record s { running = false }); tell (system pthread_join); ret true

-- `run`. (The results of setting the thread's attributes are only logged.)
unfoldable pub run : Env → Prog CommonThread Bool
run env = do
  s ← get
  put (record s { running = true })
  status ← ask env (system (pthread_create true))
  if is_zero status then (do tell (system pthread_detach); ret true) else ret false

-- `requestExit`.
unfoldable pub request_exit : Prog CommonThread Bool
request_exit = do s ← get; put (record s { running = false }); ret true

-- `getRunning`.
unfoldable pub get_running : Prog CommonThread Bool
get_running = do s ← get; ret s.running

-- `ThreadWork`, which runs the loop of the subclass once; NULL for no context.
unfoldable pub thread_work :
    (context : Bool) → (thread_loop : Prog CommonThread Bool) → Prog CommonThread ℕ
thread_work false thread_loop = ret 0
thread_work true thread_loop = do thread_loop; ret 1

-- A part of an object is worked on.
module _ {S T A : Type 0} where
  abbrev pub part_done : (T → S → T) → T → Outcome S A → Outcome T A
  part_done store t (done a s log) = done a (store t s) log
  part_done store t crash = crash

  abbrev pub within : (T → S) → (T → S → T) → Prog S A → Prog T A
  within part store p t log = part_done store t (p (part t) log)
