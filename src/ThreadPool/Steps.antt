-- ===== src/ThreadPool/Steps.antt =====
-- Steps one after another, of any threads or of those of one worker.
use primordialsoup.Base.{ℕ, ◌≡◌, Option, none, some}
use primordialsoup.ThreadPool.System.{
  System, Step, Reachable, next, runs_new, runs_idle, sets_task, starts, takes, finishes, idles,
  reaps, wakes, quits, times_out, shuts_down, stops, exits, leaves, joins,
}

pub data Steps : System → System → Type 0 where
  stay : {s : System} → Steps s s
  step : {s r q : System} → Step s r → Steps r q → Steps s q

pub append : {s r q : System} → Steps s r → Steps r q → Steps s q
append stay g = g
append (step e f) g = step e (append f g)

pub Steps-Reachable : {s r : System} → Reachable s → Steps s r → Reachable r
Steps-Reachable h stay = h
Steps-Reachable h (step e f) = Steps-Reachable (next h e) f

-- The worker whose thread takes the step, or whose task a caller of `Run` sets with it.
abbrev pub worker_of : {s r : System} → Step s r → Option ℕ
worker_of (runs_new t e) = none
worker_of (runs_idle w t e) = none
worker_of (sets_task w t e f) = some w
worker_of (starts w t e f) = some w
worker_of (takes w t e f) = some w
worker_of (finishes w t e) = some w
worker_of (idles w e) = some w
worker_of (reaps w e) = some w
worker_of (wakes w t e f) = some w
worker_of (quits w e f d) = some w
worker_of (times_out w e f d) = some w
worker_of (shuts_down e) = none
worker_of (stops w ws e f) = none
worker_of (exits w e) = some w
worker_of (leaves w e f) = some w
worker_of (joins e f g) = none

-- Steps of the thread of the worker, and of callers that set its task.
pub data StepsOf (w : ℕ) : System → System → Type 0 where
  rest : {s : System} → StepsOf w s s
  step_of : {s r q : System} (e : Step s r) → worker_of e ≡ some w → StepsOf w r q → StepsOf w s q
