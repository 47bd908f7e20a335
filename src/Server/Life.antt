-- ===== src/Server/Life.antt =====
-- Who holds a `MqttSession` (src/MqttSession.hpp) of `MQTTServer` (src/MqttServer.hpp), and its thread.
-- A `shared_ptr` that is copied is one holder more; the session is destroyed when the last one goes. The
-- functions of its client go with the client, which the session holds: nothing sets them again.
pub mod Kept
use k_mqttd.Base.{
  ℕ, suc, ◌+◌, ◌-◌, ◌≤◌, ◌≡◌, ◌==◌, Bool, true, false, List, [], ◌∷◌, ◌++◌, if◌then◌else◌,
}

pub data Thread : Type 0 where
  unstarted running ended : Thread

-- The holders of a session: the local variables, the functions of its client, the handlers of reads and
-- of the timer that have not run, and the function of its thread.
pub record Life : Type 0 where
  pub locals : ℕ
  pub functions : ℕ
  pub handlers : ℕ
  pub thread : Thread
  pub is_destroyed : Bool

abbrev pub is_running : Thread → Bool
is_running unstarted = false
is_running running = true
is_running ended = false

abbrev pub holders : Life → ℕ
holders l = l.locals + l.functions + l.handlers + (if is_running l.thread then 1 else 0)

-- After a holder has gone.
unfoldable pub release : Life → Life
release l = if holders l == 0 then record l { is_destroyed = true } else l

-- `make_shared` in the handler of `async_accept`, whose `p_session` holds the session.
abbrev pub new_life : Life
new_life = record {
  locals = 1;
  functions = 0;
  handlers = 0;
  thread = unstarted;
  is_destroyed = false;
}

-- `start` takes `self`, and copies it into `func_OnLogin`, `func_OnWrite` and `func_OnUnLogin`, into the
-- handler of the first read, and into the function of the thread.
unfoldable pub start : Life → Life
start l = record l {
  locals = suc l.locals;
  functions = l.functions + 3;
  handlers = suc l.handlers;
  thread = running;
}

-- A method takes `self`.
unfoldable pub begin_local : Life → Life
begin_local l = record l { locals = suc l.locals }

-- The end of the block of a local variable.
unfoldable pub end_local : Life → Life
unfolding release
end_local l = release (record l { locals = l.locals - 1 })

-- A handler has run, and has set the next one or has not.
unfoldable pub end_handler : Bool → Life → Life
unfolding release
end_handler again l = if again then l else release (record l { handlers = l.handlers - 1 })

-- `do_active` sets the timer.
unfoldable pub set_timer : Life → Life
set_timer l = record l { handlers = suc l.handlers }

-- The loop of the thread ends when `_ioContent` is stopped.
unfoldable pub end_thread : Life → Life
unfolding release
end_thread l = release (record l { thread = ended })

-- The sessions that were accepted, in order, and whether `_ioContent` is stopped.
pub record Lives : Type 0 where
  pub lives : List Life
  pub is_stopped : Bool

abbrev pub no_lives : Lives
no_lives = record { lives = []; is_stopped = false }

-- What a session may do next.
pub data Turn (is_stopped : Bool) : Life → Life → Type 0 where
  local_begins : (l : Life) → 1 ≤ holders l → Turn is_stopped l (begin_local l)
  local_ends : (l : Life) → 1 ≤ l.locals → Turn is_stopped l (end_local l)
  handler_ends :
      (again : Bool) (l : Life) → 1 ≤ l.handlers → Turn is_stopped l (end_handler again l)
  timer_set : (l : Life) → 1 ≤ l.handlers → Turn is_stopped l (set_timer l)
  thread_ends :
      (l : Life) → is_stopped ≡ true → l.thread ≡ running → Turn is_stopped l (end_thread l)

-- A connection is accepted and its session started, a session does something, or `Stop` stops `_ioContent`.
pub data Step : Lives → Lives → Type 0 where
  accept : (s : Lives) → Step s (record s { lives = s.lives ++ (start new_life ∷ []) })
  turn :
      (s : Lives) (before later : List Life) (l l' : Life)
      → s.lives ≡ before ++ (l ∷ later)
      → Turn s.is_stopped l l'
      → Step s (record s { lives = before ++ (l' ∷ later) })
  stop : (s : Lives) → Step s (record s { is_stopped = true })

pub data Reach : Lives → Type 0 where
  begin : Reach no_lives
  next : {s s' : Lives} → Reach s → Step s s' → Reach s'
