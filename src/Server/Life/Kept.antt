-- ===== src/Server/Life/Kept.antt =====
-- No session is ever destroyed, and each keeps its thread.
use k_mqttd.Base.{
  ℕ, ◌+◌, ◌-◌, ◌≤◌, ◌≡◌, ◌==◌, refl, subst, Bool, true, false, List, [], ◌∷◌, ◌++◌, length,
  if◌then◌else◌, arith,
}
use k_mqttd.Server.Life.{
  Life, is_running, running, ended, holders, release, start, new_life, end_local, end_handler,
  set_timer, end_thread, Lives, Turn, local_ends, begin_local, local_begins, handler_ends,
  timer_set, thread_ends, Step, accept, turn, stop, Reach, begin, next,
}

-- The client's functions hold the session, and its thread runs until `_ioContent` is stopped.
pub record IsKept (is_stopped : Bool) (l : Life) : Type 0 where
  pub held : 3 ≤ l.functions
  pub alive : l.is_destroyed ≡ false
  pub runs : is_stopped ≡ false → l.thread ≡ running

abbrev pub AllKept : Bool → List Life → Type 0
AllKept is_stopped [] = Unit
AllKept is_stopped (l ∷ ls) = IsKept is_stopped l × AllKept is_stopped ls

release_held : (l : Life) → 3 ≤ l.functions → release l ≡ l
unfolding release
release_held l held = let some_left : holders l == 0 ≡ false = ground arith in rw some_left refl

Turn-IsKept :
    (is_stopped : Bool) {l l' : Life}
    → Turn is_stopped l l'
    → IsKept is_stopped l
    → IsKept is_stopped l'
unfolding begin_local end_local end_handler set_timer end_thread
Turn-IsKept is_stopped (local_begins l held) k = record {
  held = k.held;
  alive = k.alive;
  runs = k.runs;
}
Turn-IsKept is_stopped (local_ends l some_local) k =
    rw (release_held (record l { locals = l.locals - 1 }) k.held)
      (record { held = k.held; alive = k.alive; runs = k.runs })
Turn-IsKept is_stopped (handler_ends true l some_handler) k = k
Turn-IsKept is_stopped (handler_ends false l some_handler) k =
    rw (release_held (record l { handlers = l.handlers - 1 }) k.held)
      (record { held = k.held; alive = k.alive; runs = k.runs })
Turn-IsKept is_stopped (timer_set l some_handler) k = record {
  held = k.held;
  alive = k.alive;
  runs = k.runs;
}
Turn-IsKept is_stopped (thread_ends l stopped run) k =
    rw (release_held (record l { thread = ended }) k.held)
      (record { held = k.held; alive = k.alive; runs = λ going. absurd (cc (going, stopped)) })

AllKept-append : (b : Bool) (xs ys : List Life) → AllKept b xs → AllKept b ys → AllKept b (xs ++ ys)
AllKept-append b [] ys hx hy = hy
AllKept-append b (x ∷ xs) ys (h, hx) hy = (h, AllKept-append b xs ys hx hy)

AllKept-replace :
    (b : Bool) (before later : List Life) (l l' : Life)
    → (IsKept b l → IsKept b l')
    → AllKept b (before ++ (l ∷ later))
    → AllKept b (before ++ (l' ∷ later))
AllKept-replace b [] later l l' keeps (h, hs) = (keeps h, hs)
AllKept-replace b (x ∷ before) later l l' keeps (h, hs) =
    (h, AllKept-replace b before later l l' keeps hs)

AllKept-stop : (b : Bool) (ls : List Life) → AllKept b ls → AllKept true ls
AllKept-stop b [] h = tt
AllKept-stop b (l ∷ ls) (h, hs) =
    (record { held = h.held; alive = h.alive; runs = λ e. absurd (cc e) }, AllKept-stop b ls hs)

new_life-IsKept : (b : Bool) → IsKept b (start new_life)
unfolding start
new_life-IsKept b = record { held = omega arith; alive = refl; runs = λ going. refl }

Step-AllKept :
    {s s' : Lives} → Step s s' → AllKept s.is_stopped s.lives → AllKept s'.is_stopped s'.lives
Step-AllKept (accept s) h =
    AllKept-append s.is_stopped s.lives (start new_life ∷ []) h (new_life-IsKept s.is_stopped, tt)
Step-AllKept (turn s before later l l' e t) h =
    AllKept-replace s.is_stopped before later l l' (Turn-IsKept s.is_stopped t)
      (subst (AllKept s.is_stopped) e h)
Step-AllKept (stop s) h = AllKept-stop s.is_stopped s.lives h

Reach-AllKept : {s : Lives} → Reach s → AllKept s.is_stopped s.lives
Reach-AllKept begin = tt
Reach-AllKept (next r st) = Step-AllKept st (Reach-AllKept r)

abbrev pub is_destroyed_any : List Life → Bool
is_destroyed_any [] = false
is_destroyed_any (l ∷ ls) = if l.is_destroyed then true else is_destroyed_any ls

abbrev pub running_threads : List Life → ℕ
running_threads [] = 0
running_threads (l ∷ ls) = (if is_running l.thread then 1 else 0) + running_threads ls

none_destroyed : (b : Bool) (ls : List Life) → AllKept b ls → is_destroyed_any ls ≡ false
none_destroyed b [] h = refl
none_destroyed b (l ∷ ls) (h, hs) = rw (h.alive, none_destroyed b ls hs) refl

all_run : (ls : List Life) → AllKept false ls → running_threads ls ≡ length ls
all_run [] h = refl
all_run (l ∷ ls) (h, hs) = rw (h.runs refl, all_run ls hs) (omega arith)

-- After any steps of the server and its sessions, whatever their sockets and handlers do: no session
-- has been destroyed, and as long as the server is not stopped, a thread runs for every session that
-- was ever started.
pub Reach-threads :
    {s : Lives}
    → Reach s
    → (is_destroyed_any s.lives ≡ false)
      × (s.is_stopped ≡ false → running_threads s.lives ≡ length s.lives)
Reach-threads {s} r = (
  none_destroyed s.is_stopped s.lives (Reach-AllKept r),
  λ going. all_run s.lives (subst (λ b. AllKept b s.lives) going (Reach-AllKept r)),
)
