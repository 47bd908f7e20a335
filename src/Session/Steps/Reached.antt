-- ===== src/Session/Steps/Reached.antt =====
-- What holds of every session between two steps, from `start` on.
use k_mqttd.Base.{Bool, ◌∷◌, ℕ, ◌≡◌, ◌⊎◌, inl, inr, refl, List, [], true, arith}
use k_mqttd.Client
use k_mqttd.Session.State.{
  Phase, reading_head, reading_len, reading_rest, stalled, resting, MqttSession,
}
use k_mqttd.Session.Message.{zeros, Gives, give_head, give_len, give_rest}
use k_mqttd.Session.Message.Buffer.{length-zeros}
use k_mqttd.Session.Message.Valid.{Fits, IsValid}
use k_mqttd.Session.Message.Valid.Read.{on_read-IsValid, on_read_error-IsValid}
use k_mqttd.Session.Active.{make, start}
use k_mqttd.Session.Steps.{Step, read, read_error, timer, Reach, begin, next}

begin-IsValid : (now : ℕ) → IsValid (start (make Client.make now))
unfolding start make
begin-IsValid now = record {
  fits = tt;
  unarmed = refl;
  client_idle = record { un_login_set = refl; squeue_empty = refl; rqueue_empty = refl };
}

pub Step-IsValid : {s s' : MqttSession} → Step s s' → IsValid s → IsValid s'
Step-IsValid (read st now chunk s s' is_open gives e) v =
    on_read-IsValid st now chunk s s' gives v e
Step-IsValid (read_error st now s s' e) v = on_read_error-IsValid st now s s' v e
Step-IsValid (timer now s armed due) v = absurd (cc (v.unarmed, armed))

-- From `start` on, between any two steps, as long as the behaviour is defined: the rest of a length
-- field that is asked for fits into the head; the rest of a message that is asked for is not empty, and
-- ends at the end of the vector that was made for the message or at most three bytes behind it; a session
-- whose reading has ended in an error is closed; the timer is not set; `func_OnUnLogin` is set and no
-- message is in a window.
pub Reach-IsValid : {s : MqttSession} → Reach s → IsValid s
Reach-IsValid (begin now) = begin-IsValid now
Reach-IsValid (next reached step) = Step-IsValid step (Reach-IsValid reached)

waits :
    (p : Phase) (is_open : Bool)
    → is_open ≡ true
    → Fits p is_open
    → (p ≡ stalled) ⊎ ((chunk : List ℕ) × Gives p chunk)
waits reading_head is_open opened fits =
    inr (0 ∷ [], give_head (0 ∷ []) (omega arith) (omega arith))
waits (reading_len first got) is_open opened fits =
    inr (0 ∷ [], give_len first got (0 ∷ []) (omega arith) (omega arith))
waits (reading_rest pdata n mh size) is_open opened fits =
    inr (zeros size, give_rest pdata n mh size (zeros size) (length-zeros size))
waits stalled is_open opened fits = inl refl
waits resting is_open opened fits = absurd (cc (opened, fits))

-- A session that has been reached and whose socket is open waits for a read that the socket can
-- complete, unless `do_read_len` has returned on a full buffer.
pub Reach-waits :
    {s : MqttSession}
    → Reach s
    → s.is_open ≡ true
    → (s.phase ≡ stalled) ⊎ ((chunk : List ℕ) × Gives s.phase chunk)
Reach-waits {s} reached opened = waits s.phase s.is_open opened (Reach-IsValid reached).fits
