-- ===== src/Timer/Wheel.antt =====
-- cyber/timer/timing_wheel.{h,cc}, timer_bucket.h and timer_task.h: the hierarchical timing wheel.
-- A task is a shared object, and a bucket holds weak pointers: here a task is an address, and
-- `tasks` holds the objects that are still alive, so `lock()` is a lookup.
pub mod Due
pub mod Adding
pub mod Others
pub mod Ticking
pub mod Turning
use cyberrt_on_rpi.Base.{
  ℕ, ◌+◌, ◌-◌, ◌*◌, ◌/◌, ◌%◌, ◌^◌, Bool, true, false, not, ◌&&◌, Option, none, some, List, [], ◌∷◌,
  ◌++◌, bit_and, ltb, ◌==◌, if◌then◌else◌, update, add64,
}

-- `struct TimerTask`. The callback is known by the task's address. The error is the bit pattern of an
-- int64_t.
pub record TimerTask : Type 0 where
  pub timer_id : ℕ
  pub interval_ms : ℕ
  pub remainder_interval_ms : ℕ
  pub next_fire_duration_ms : ℕ
  pub accumulated_error_ns : ℕ
  pub last_execute_time_ns : ℕ

abbrev pub work_wheel_size : ℕ
work_wheel_size = 512

abbrev pub assistant_wheel_size : ℕ
assistant_wheel_size = 64

abbrev pub timer_max_interval_ms : ℕ
timer_max_interval_ms = work_wheel_size * assistant_wheel_size

-- `class TimingWheel`, with the objects that its weak pointers may lead to.
pub record TimingWheel : Type 0 where
  pub running : Bool
  pub tick_thread : Bool
  pub work_wheel : ℕ → List ℕ
  pub assistant_wheel : ℕ → List ℕ
  pub current_work_wheel_index : ℕ
  pub current_assistant_wheel_index : ℕ
  pub tasks : ℕ → Option TimerTask

unfoldable pub init : TimingWheel
init = record {
  running = false;
  tick_thread = false;
  work_wheel = λ _. [];
  assistant_wheel = λ _. [];
  current_work_wheel_index = 0;
  current_assistant_wheel_index = 0;
  tasks = λ _. none;
}

unfoldable pub get_work_wheel_index : ℕ → ℕ
get_work_wheel_index index = bit_and index (work_wheel_size - 1)

unfoldable pub get_assistant_wheel_index : ℕ → ℕ
get_assistant_wheel_index index = bit_and index (assistant_wheel_size - 1)

-- `TimerBucket::AddTask` on one bucket of a wheel
unfoldable pub push_back : (ℕ → List ℕ) → ℕ → ℕ → ℕ → List ℕ
push_back wheel i task = update wheel i (wheel i ++ (task ∷ []))

-- The tick thread is spawned here, and runs `tick_func`.
unfoldable pub start : TimingWheel → TimingWheel
start w = if w.running then w else record w { running = true; tick_thread = true }

-- `join` waits for the tick thread to see that `running` is false.
unfoldable pub shutdown : TimingWheel → TimingWheel
shutdown w = if w.running then record w { running = false; tick_thread = false } else w

-- The callbacks of a bucket whose tasks are alive, in order.
unfoldable pub alive : (ℕ → Option TimerTask) → List ℕ → List ℕ
alive tasks [] = []
alive tasks (t ∷ ts) = elim (tasks t) [ none ↦ alive tasks ts | some _ ↦ t ∷ alive tasks ts ]

-- The second component lists the tasks whose callbacks go to `Async`; the bucket is emptied.
unfoldable pub tick : TimingWheel → TimingWheel × List ℕ
unfolding alive
tick w =
    let bucket = w.work_wheel w.current_work_wheel_index in
    (
      record w { work_wheel = update w.work_wheel w.current_work_wheel_index [] },
      alive w.tasks bucket,
    )

-- `AddTask(task, current_work_wheel_index)` from the test of the first wheel's size on. `task` is the
-- object at the address `t`, which the caller's shared pointer keeps alive.
unfoldable pub place : ℕ → TimerTask → ℕ → TimingWheel → TimingWheel
unfolding push_back get_work_wheel_index get_assistant_wheel_index
place t task current w =
    let work_wheel_index = add64 current task.next_fire_duration_ms in
    let real_work_wheel_index = get_work_wheel_index work_wheel_index in
    let assistant_ticks = work_wheel_index / work_wheel_size in
    let noted = record w {
      tasks =
          update w.tasks t (some (record task { remainder_interval_ms = real_work_wheel_index }));
    } in
    if ltb work_wheel_index work_wheel_size
    then record w { work_wheel = push_back w.work_wheel work_wheel_index t }
    else if assistant_ticks == 1 && not (real_work_wheel_index == w.current_work_wheel_index)
    then record noted { work_wheel = push_back w.work_wheel real_work_wheel_index t }
    else record noted {
      assistant_wheel =
          push_back w.assistant_wheel
            (get_assistant_wheel_index (add64 w.current_assistant_wheel_index assistant_ticks)) t;
    }

-- `if (!running_) Start();`
unfoldable pub awake : TimingWheel → TimingWheel
unfolding start
awake w = if w.running then w else start w

unfoldable pub add_task_at : ℕ → ℕ → TimingWheel → TimingWheel
add_task_at t current w = elim (w.tasks t) [ none ↦ w | some task ↦ place t task current (awake w) ]

unfoldable pub add_task : ℕ → TimingWheel → TimingWheel
unfolding add_task_at
add_task t w = add_task_at t w.current_work_wheel_index w

-- The loop of `Cascade` over one bucket: each task that is alive moves to its place on the work wheel.
unfoldable pub cascade_tasks : (ℕ → Option TimerTask) → List ℕ → (ℕ → List ℕ) → ℕ → List ℕ
unfolding push_back
cascade_tasks tasks [] work = work
cascade_tasks tasks (t ∷ ts) work =
    cascade_tasks tasks ts
      (elim (tasks t) [ none ↦ work | some task ↦ push_back work task.remainder_interval_ms t ])

unfoldable pub cascade : ℕ → TimingWheel → TimingWheel
unfolding cascade_tasks
cascade i w = record w {
  work_wheel = cascade_tasks w.tasks (w.assistant_wheel i) w.work_wheel;
  assistant_wheel = update w.assistant_wheel i [];
}

-- The body of the loop of `TickFunc` behind `rate.Sleep()`.
unfoldable pub advance : TimingWheel → TimingWheel
unfolding get_work_wheel_index get_assistant_wheel_index cascade
advance w =
    let c = get_work_wheel_index (w.current_work_wheel_index + 1) in
    let a = get_assistant_wheel_index (w.current_assistant_wheel_index + 1) in
    if c == 0
    then cascade a (record w { current_work_wheel_index = c; current_assistant_wheel_index = a })
    else record w { current_work_wheel_index = c }
