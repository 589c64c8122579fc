-- ===== src/Mock/Lifecycle.antt =====
-- Starting and stopping the mock server.
use Prim.Native.String.{String}
use linux_application_develo.Shared.{
  ◌≡◌, refl, sym, ap, ◌∙◌, true, false, Option, none, some, List, [], ◌∷◌, ◌++◌, arith, Result, ok,
  err, inl, inr, Bool-cases, Option-cases,
}
use linux_application_develo.Mock.{
  Server, Listen, StartError, already_started, Stopped, panics, stops, connections, start, stop,
  accept_loop,
}

-- Listening succeeds for the server's configuration.
abbrev pub CanListen : Listen → Server → Type 0
CanListen listen s = listen s.config.protocol s.config.address s.config.port ≡ none

-- A start and a stop of a server.
pub record IsCycle (listen : Listen) (s started stopped : Server) : Type 0 where
  pub starts : start listen s ≡ ok started
  pub runs : started.started ≡ true
  pub refuses : start listen started ≡ err already_started
  pub ends : stop started ≡ stops stopped
  pub rests : stopped.started ≡ false
  pub no_sessions : stopped.sessions ≡ []
  pub closes : stopped.closed ≡ s.closed ++ connections s.sessions
  pub again : stop stopped ≡ stops stopped

-- If the server can listen, is not started and has never been stopped, then it starts, refuses a
-- second start, and stops: it closes its sessions' connections, forgets them, and a further Stop
-- changes nothing.
pub start-stop-IsCycle :
    (listen : Listen) (s : Server)
    → CanListen listen s
    → s.started ≡ false
    → s.stop_closed ≡ false
    → (started : Server) × (stopped : Server) × IsCycle listen s started stopped
unfolding start stop
start-stop-IsCycle listen s can off fresh = (
  record s { listening = true; started = true },
  record s {
    stop_closed = true;
    started = false;
    closed = s.closed ++ connections s.sessions;
    sessions = [];
    listening = false;
  },
  record {
    starts = rw (off, can) refl;
    runs = refl;
    refuses = refl;
    ends = rw fresh refl;
    rests = refl;
    no_sessions = refl;
    closes = refl;
    again = refl;
  },
)

abbrev server_or : Server → Result StartError Server → Server
server_or s (err e) = s
server_or s (ok t) = t

abbrev stopped_or : Server → Stopped → Server
stopped_or s panics = s
stopped_or s (stops t) = t

start-started :
    (listen : Listen) (s t : Server)
    → start listen s ≡ ok t
    → (t.started ≡ true) × (t.stop_closed ≡ s.stop_closed)
unfolding start
start-started listen s t h = elim (Bool-cases s.started) [
  | inl on ↦ absurd (ground (arith, on, h))
  | inr off ↦ elim (Option-cases (listen s.config.protocol s.config.address s.config.port)) [
    | inl can ↦
        let same = ap (server_or s) (rw (off, can) at h) in
        (sym (ap (λ (u : Server). u.started) same), sym (ap (λ (u : Server). u.stop_closed) same))
    | inr (e, cannot) ↦ absurd (ground (arith, off, cannot, h))
  ]
]

stop-stop_closed : (s t : Server) → s.started ≡ true → stop s ≡ stops t → (t.stop_closed ≡ true)
unfolding stop
stop-stop_closed s t on h = elim (Bool-cases s.stop_closed) [
  | inl twice ↦ absurd (ground (arith, on, twice, h))
  | inr fresh ↦ sym (ap (λ (u : Server). u.stop_closed) (ap (stopped_or s) (rw (on, fresh) at h)))
]

accept_loop_closed :
    (s : Server) (conns : List (Option String)) → s.stop_closed ≡ true → accept_loop s conns ≡ s
unfolding accept_loop
accept_loop_closed s [] h = refl
accept_loop_closed s (none ∷ rest) h = rw h refl
accept_loop_closed s (some conn ∷ rest) h = rw h refl

-- A server that is started again after a stop accepts no connection, and to stop it panics.
pub restart-stop :
    (listen : Listen) (s t u v : Server) (conns : List (Option String))
    → start listen s ≡ ok t
    → stop t ≡ stops u
    → start listen u ≡ ok v
    → (accept_loop v conns ≡ v) × (stop v ≡ panics)
unfolding stop
restart-stop listen s t u v conns starts ends restarts =
    let first = start-started listen s t starts in
    let closed = stop-stop_closed t u first.0 ends in
    let second = start-started listen u v restarts in
    let still = second.1 ∙ closed in (accept_loop_closed v conns still, rw (second.0, still) refl)
