-- ===== src/Io/Poller.antt =====
-- cyber/io/poller.h, poller.cc and poll_data.h: one thread that waits for descriptors with epoll and calls
-- the callbacks of the requests. The changes that other threads ask for are collected, and handed to
-- `epoll_ctl` by the polling thread before it waits. The key of a request is its field fd. What `epoll_ctl`
-- does to the events for which epoll watches a descriptor is a parameter.
pub mod Watching
pub mod Polling
mod Tests
use cyberrt_on_rpi.Base.{
  ℕ, zero, suc, ◌-◌, Bool, true, false, Option, none, some, List, [], ◌∷◌, ◌++◌, ◌==◌, ltb,
  if◌then◌else◌, update,
}
use cyberrt_on_rpi.Base.Int.{ℤ, pos, negsuc}

pub data Operation : Type 0 where
  epoll_ctl_add : Operation
  epoll_ctl_mod : Operation
  epoll_ctl_del : Operation

-- `epoll_ctl` for one descriptor: the events for which it is watched before, and afterwards. A call that
-- fails leaves them as they are; the poller does not look at its result.
abbrev pub Control : Type 0
Control = Operation → ℕ → Option ℕ → Option ℕ

-- A negative timeout waits for ever. `callback` is none for a null function.
pub record PollRequest : Type 0 where
  pub events : ℕ
  pub timeout_ms : ℤ
  pub callback : Option ℕ

pub record PollCtrlParam : Type 0 where
  pub operation : Operation
  pub fd : ℕ
  pub events : ℕ

-- `local_params` are the changes that the polling thread has taken and not yet handed over, `watched` is what
-- epoll watches, `written` counts the bytes that were written to wake the thread, and `calls` lists the calls
-- of callbacks with their descriptors and events.
pub record Poller : Type 0 where
  pub is_shutdown : Bool
  pub requests : List (ℕ × PollRequest)
  pub ctrl_params : List PollCtrlParam
  pub local_params : List PollCtrlParam
  pub watched : ℕ → Option ℕ
  pub written : ℕ
  pub calls : List (ℕ × ℕ)

unfoldable pub find : ℕ → List (ℕ × PollRequest) → Option PollRequest
find fd [] = none
find fd ((f, req) ∷ requests) = let rest = find fd requests in if f == fd then some req else rest

unfoldable pub erase : ℕ → List (ℕ × PollRequest) → List (ℕ × PollRequest)
erase fd [] = []
erase fd ((f, req) ∷ requests) =
    let rest = erase fd requests in if f == fd then rest else (f, req) ∷ rest

-- `*(iter->second) = req`
unfoldable pub assign : ℕ → PollRequest → List (ℕ × PollRequest) → List (ℕ × PollRequest)
assign fd req [] = []
assign fd req ((f, old) ∷ requests) = (f, if f == fd then req else old) ∷ assign fd req requests

unfoldable pub erase_param : ℕ → List PollCtrlParam → List PollCtrlParam
erase_param fd [] = []
erase_param fd (p ∷ params) =
    let rest = erase_param fd params in if p.fd == fd then rest else p ∷ rest

-- `ctrl_params_[fd] = ctrl_param`
unfoldable pub set_param : PollCtrlParam → List PollCtrlParam → List PollCtrlParam
set_param p params = p ∷ erase_param p.fd params

unfoldable pub has_param : ℕ → List PollCtrlParam → Bool
has_param fd [] = false
has_param fd (p ∷ params) = let rest = has_param fd params in if p.fd == fd then true else rest

unfoldable pub notify : Poller → Poller
notify s = record s { written = suc s.written }

unfoldable pub register_found : Option PollRequest → ℕ → PollRequest → Poller → Poller
register_found none fd req s = record s {
  requests = (fd, req) ∷ s.requests;
  ctrl_params =
      set_param (record { operation = epoll_ctl_add; fd = fd; events = req.events }) s.ctrl_params;
}
register_found (some old) fd req s = record s {
  requests = assign fd req s.requests;
  ctrl_params =
      set_param (record { operation = epoll_ctl_mod; fd = fd; events = req.events }) s.ctrl_params;
}

unfoldable pub register_valid : ℤ → Option ℕ → PollRequest → Poller → Poller × Bool
register_valid (pos fd) (some callback) req s =
    (notify (register_found (find fd s.requests) fd req s), true)
register_valid (pos fd) none req s = (s, false)
register_valid (negsuc n) callback req s = (s, false)

unfoldable pub register : ℤ → PollRequest → Poller → Poller × Bool
register fd req s = if s.is_shutdown then (s, false) else register_valid fd req.callback req s

unfoldable pub unregister_found : Option PollRequest → ℕ → Poller → Poller × Bool
unregister_found none fd s = (s, false)
unregister_found (some req) fd s = (
  notify (record s {
    requests = erase fd s.requests;
    ctrl_params =
        set_param (record { operation = epoll_ctl_del; fd = fd; events = 0 }) s.ctrl_params;
  }),
  true,
)

unfoldable pub unregister_valid : ℤ → Option ℕ → Poller → Poller × Bool
unregister_valid (pos fd) (some callback) s = unregister_found (find fd s.requests) fd s
unregister_valid (pos fd) none s = (s, false)
unregister_valid (negsuc n) callback s = (s, false)

unfoldable pub unregister : ℤ → PollRequest → Poller → Poller × Bool
unregister fd req s = if s.is_shutdown then (s, false) else unregister_valid fd req.callback s

unfoldable pub clear : Poller → Poller
clear s = record s { requests = []; ctrl_params = []; watched = λ _. none }

unfoldable pub shutdown : Poller → Poller
shutdown s = if s.is_shutdown then s else clear (record s { is_shutdown = true })

abbrev pub epollin : ℕ
epollin = 1

abbrev pub no_poller : Poller
no_poller = record {
  is_shutdown = true;
  requests = [];
  ctrl_params = [];
  local_params = [];
  watched = λ _. none;
  written = 0;
  calls = [];
}

-- `Init` and the constructor, with the descriptor that `epoll_create` gave and the end of the pipe that is
-- read, if they succeed. The callback of the pipe empties it; it is the function 0.
unfoldable pub init : Option ℕ → Option ℕ → Poller
init none pipe = no_poller
init (some epoll_fd) none = no_poller
init (some epoll_fd) (some pipe) = record no_poller {
  is_shutdown = false;
  requests = (pipe, record { events = epollin; timeout_ms = negsuc 0; callback = some 0 }) ∷ [];
  ctrl_params = record { operation = epoll_ctl_add; fd = pipe; events = epollin } ∷ [];
}

-- `HandleChanges`: the changes are taken under the lock, and handed over one by one without it.
unfoldable pub take_changes : Poller → Poller
take_changes s = record s { local_params = s.ctrl_params; ctrl_params = [] }

unfoldable pub control_one : Control → PollCtrlParam → (ℕ → Option ℕ) → ℕ → Option ℕ
control_one control p watched = update watched p.fd (control p.operation p.events (watched p.fd))

unfoldable pub control_all : Control → List PollCtrlParam → (ℕ → Option ℕ) → ℕ → Option ℕ
control_all control [] watched = watched
control_all control (p ∷ params) watched =
    control_all control params (control_one control p watched)

unfoldable pub handle_changes : Control → Poller → Poller
handle_changes control s = record s {
  ctrl_params = [];
  watched = control_all control s.ctrl_params s.watched;
}

abbrev pub k_poll_timeout_ms : ℕ
k_poll_timeout_ms = 100

unfoldable pub shorter : ℤ → ℕ → ℕ
shorter (pos t) timeout_ms = if ltb t timeout_ms then t else timeout_ms
shorter (negsuc n) timeout_ms = timeout_ms

unfoldable pub shortest : List (ℕ × PollRequest) → ℕ → ℕ
shortest [] timeout_ms = timeout_ms
shortest ((fd, req) ∷ requests) timeout_ms = shortest requests (shorter req.timeout_ms timeout_ms)

unfoldable pub get_timeout_ms : Poller → ℕ
get_timeout_ms s = shortest s.requests k_poll_timeout_ms

-- `interval_ms`; the clock does not run backwards while the thread waits.
unfoldable pub interval : ℕ → ℕ
interval zero = 1
interval (suc elapsed_ms) = suc elapsed_ms

-- The timeout of a request after `Poll`, and whether it is over; a difference below 0 becomes 0.
unfoldable pub count_down : ℕ → ℤ → ℤ × Bool
count_down interval_ms (negsuc n) = (negsuc n, false)
count_down interval_ms (pos t) =
    if ltb interval_ms t then (pos (t - interval_ms), false) else (negsuc 0, true)

-- The requests without changes that are still to be handed over, and the responses to those whose time is
-- over.
unfoldable pub expire :
    List PollCtrlParam → ℕ → List (ℕ × PollRequest) → List (ℕ × PollRequest) × List (ℕ × ℕ)
expire params interval_ms [] = ([], [])
expire params interval_ms ((fd, req) ∷ requests) =
    let (rest, responses) = expire params interval_ms requests in
    let (timeout_ms, is_over) = count_down interval_ms req.timeout_ms in
    if has_param fd params then ((fd, req) ∷ rest, responses) else (
      (fd, record req { timeout_ms = timeout_ms }) ∷ rest,
      if is_over then (fd, 0) ∷ responses else responses,
    )

unfoldable pub erase_response : ℕ → List (ℕ × ℕ) → List (ℕ × ℕ)
erase_response fd [] = []
erase_response fd ((f, events) ∷ responses) =
    let rest = erase_response fd responses in if f == fd then rest else (f, events) ∷ rest

-- `responses[fd] = PollResponse(events)`, for what `epoll_wait` gave.
unfoldable pub add_ready : List (ℕ × ℕ) → List (ℕ × ℕ) → List (ℕ × ℕ)
add_ready [] responses = responses
add_ready ((fd, events) ∷ ready) responses =
    add_ready ready ((fd, events) ∷ erase_response fd responses)

unfoldable pub respond_found : Option PollRequest → ℕ → ℕ → Poller → Poller
respond_found none fd events s = s
respond_found (some req) fd events s = record s {
  requests = assign fd (record req { timeout_ms = negsuc 0 }) s.requests;
  calls = s.calls ++ ((fd, events) ∷ []);
}

unfoldable pub respond : ℕ → ℕ → Poller → Poller
respond fd events s = respond_found (find fd s.requests) fd events s

unfoldable pub respond_all : List (ℕ × ℕ) → Poller → Poller
respond_all [] s = s
respond_all ((fd, events) ∷ responses) s = respond_all responses (respond fd events s)

-- `Poll`, where `epoll_wait` took so many milliseconds and found these descriptors ready.
unfoldable pub poll : ℕ → List (ℕ × ℕ) → Poller → Poller
poll elapsed_ms ready s =
    let (requests, responses) = expire s.ctrl_params (interval elapsed_ms) s.requests in
    respond_all (add_ready ready responses) (record s { requests = requests })
