-- ===== src/Session/Strand/Orders.antt =====
-- The orders in which the strand of a session of src/MqttSession.hpp may run what it is given.
use k_mqttd.Base.{
  ℕ, zero, suc, ◌+◌, ◌<◌, ap, ◌∙◌, Bool, ltb, ltb→lt, ◌⊎◌, ◌≤◌, ◌≡◌, refl, sym, true, false, ◌==◌,
  Bool-cases, List, [], ◌∷◌, arith, inl, inr, Exec, ret, undef, ◌>>=◌, Exec-cases,
}
use k_mqttd.Protocol.Header.{Stale}
use k_mqttd.Protocol.Message.{Message}
use k_mqttd.Client.{deliver}
use k_mqttd.Session.State.{reading_head, MqttSession, do_close}
use k_mqttd.Session.Message.{on_message}
use k_mqttd.Session.Strand.{
  delivers, reads_on, Call, deliver_in, read_next, dispatch, func, Event, returns, strand_runs,
  run_queue, happen, play,
}

abbrev pub session_of : Exec Call → Exec MqttSession
session_of e = do c ← e; ret c.session

-- How many steps the strand makes, and how many before the function returns.
abbrev pub runs : List Event → ℕ
runs [] = 0
runs (returns ∷ es) = runs es
runs (strand_runs ∷ es) = suc (runs es)

abbrev pub runs_before : List Event → ℕ
runs_before [] = 0
runs_before (returns ∷ es) = 0
runs_before (strand_runs ∷ es) = suc (runs_before es)

-- Nothing is left in the queue.
play_done :
    (st : Stale) (es : List Event) (s : MqttSession) (m : Message) (there : Bool)
    → session_of (play st es (record { session = s; queue = []; message = m; is_there = there }))
      ≡ ret s
unfolding happen run_queue
play_done st [] s m there = refl
play_done st (returns ∷ es) s m there = play_done st es s m false
play_done st (strand_runs ∷ es) s m there = play_done st es s m there

play_last :
    (st : Stale) (es : List Event) (s : MqttSession) (m : Message) (there : Bool)
    → 1 ≤ runs es
    → session_of
        (play st es (record { session = s; queue = reads_on ∷ []; message = m; is_there = there }))
      ≡ ret (record s { phase = reading_head })
unfolding happen run_queue read_next
play_last st [] s m there some_run = absurd (omega arith)
play_last st (returns ∷ es) s m there some_run = play_last st es s m false some_run
play_last st (strand_runs ∷ es) s m there some_run =
    play_done st es (record s { phase = reading_head }) m there

-- `deliver` has read all that it reads.
play_read :
    (st : Stale) (es : List Event) (s : MqttSession) (m : Message) (there : Bool)
    → 2 ≤ runs es
    → session_of (
        play st es (record {
          session = s;
          queue = delivers 0 ∷ reads_on ∷ [];
          message = m;
          is_there = there;
        }))
      ≡ (do s' ← deliver_in st m s; ret (record s' { phase = reading_head }))
unfolding happen run_queue
play_read st [] s m there some_run = absurd (omega arith)
play_read st (returns ∷ es) s m there some_run = play_read st es s m false some_run
play_read st (strand_runs ∷ es) s m there some_run = elim (Exec-cases (deliver_in st m s)) [
  | inl e ↦ rw e refl
  | inr (s', e) ↦ rw e (play_last st es s' m there (omega arith))
]

-- All reads come before the function returns.
play_in_time :
    (st : Stale) (n : ℕ) (es : List Event) (s : MqttSession) (m : Message)
    → n + 2 ≤ runs es
    → n ≤ runs_before es
    → session_of (
        play st es (record {
          session = s;
          queue = delivers n ∷ reads_on ∷ [];
          message = m;
          is_there = true;
        }))
      ≡ (do s' ← deliver_in st m s; ret (record s' { phase = reading_head }))
unfolding happen run_queue
play_in_time st zero es s m all soon = play_read st es s m true (omega arith)
play_in_time st (suc n) [] s m all soon = absurd (omega arith)
play_in_time st (suc n) (returns ∷ es) s m all soon = absurd (omega arith)
play_in_time st (suc n) (strand_runs ∷ es) s m all soon =
    play_in_time st n es s m (omega arith) (omega arith)

-- A read comes after it.
play_gone :
    (st : Stale) (n : ℕ) (es : List Event) (s : MqttSession) (m : Message)
    → 1 ≤ runs es
    → play st es (record {
      session = s;
      queue = delivers (suc n) ∷ reads_on ∷ [];
      message = m;
      is_there = false;
    })
      ≡ undef
unfolding happen run_queue
play_gone st n [] s m some_run = absurd (omega arith)
play_gone st n (returns ∷ es) s m some_run = play_gone st n es s m some_run
play_gone st n (strand_runs ∷ es) s m some_run = refl

play_late :
    (st : Stale) (n : ℕ) (es : List Event) (s : MqttSession) (m : Message)
    → n + 2 ≤ runs es
    → runs_before es < n
    → play st es
        (record { session = s; queue = delivers n ∷ reads_on ∷ []; message = m; is_there = true })
      ≡ undef
unfolding happen run_queue
play_late st zero es s m all late = absurd (omega arith)
play_late st (suc n) [] s m all late = absurd (omega arith)
play_late st (suc n) (returns ∷ es) s m all late = play_gone st n es s m (omega arith)
play_late st (suc n) (strand_runs ∷ es) s m all late =
    play_late st n es s m (omega arith) (omega arith)

-- `deliver` and the next `do_read_message`.
deliver_then_read :
    (st : Stale) (now : ℕ) (m : Message) (s : MqttSession)
    → (do s' ← deliver_in st m (record s { atime = now }); ret (record s' { phase = reading_head }))
      ≡ on_message st now m s
unfolding deliver_in on_message do_close
deliver_then_read st now m s = elim (Exec-cases (deliver st m s.client)) [
  | inl e ↦ rw (e) refl
  | inr (client, e) ↦ elim (Bool-cases (client.un_logins == s.client.un_logins)) [
    | inl same ↦ rw (e, same) refl
    | inr other ↦ rw (e, other) refl
  ]
]

free_strand :
    (st : Stale) (now n : ℕ) (m : Message) (s : MqttSession) (es : List Event)
    → session_of (do c ← func st now false n m s; play st es c) ≡ on_message st now m s
unfolding func dispatch read_next
free_strand st now n m s es = elim (Exec-cases (deliver_in st m (record s { atime = now }))) [
  | inl e ↦ rw (sym (deliver_then_read st now m s), e) refl
  | inr (s', e) ↦
      rw (sym (deliver_then_read st now m s), e)
        (play_done st es (record s' { phase = reading_head }) m true)
]

-- Where the strand of the session is free, `context->func` handles a message as `on_message` does, whatever
-- happens then. Where it is busy, `deliver` reads its message `n` times, and the strand later runs both
-- of its functions to their ends: if all these reads come before `context->func` returns, the message is
-- handled as `on_message` does; if one comes after that, also one of a `deliver` that has begun before,
-- there is no defined behaviour.
pub func-on_message :
    (st : Stale) (now n : ℕ) (m : Message) (s : MqttSession) (es : List Event)
    → n + 2 ≤ runs es
    → (session_of (do c ← func st now false n m s; play st es c) ≡ on_message st now m s)
      × (((n ≤ runs_before es)
            × (session_of (do c ← func st now true n m s; play st es c) ≡ on_message st now m s))
          ⊎ ((runs_before es < n)
              × (session_of (do c ← func st now true n m s; play st es c) ≡ undef)))
unfolding func dispatch
func-on_message st now n m s es all = (
  free_strand st now n m s es,
  elim (Bool-cases (ltb (runs_before es) n)) [
    | inl late ↦ inr (
      ltb→lt (runs_before es) n late,
      ap session_of
          (play_late st n es (record s { atime = now }) m all (ltb→lt (runs_before es) n late)),
    )
    | inr soon ↦
        let in_time : n ≤ runs_before es = ground arith in
        inl (
          in_time,
          play_in_time st n es (record s { atime = now }) m all in_time
              ∙ deliver_then_read st now m s,
        )
  ],
)
