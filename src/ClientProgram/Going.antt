-- ===== src/ClientProgram/Going.antt =====
-- The threads of src/kMQTTc.cpp, which nothing joins or detaches.
use k_mqttd.Base.{ℕ, ◌≡◌, refl, sym, subst, true, false, some, List, [], ◌∷◌}
use k_mqttd.ClientProgram.{
  Run, make_p2, print_outer, print_inner, destroy_thread, leave_outer, leave_main, ThreadStep,
  makes_p2, prints_outer, leaves_outer, prints_inner, Step, of_thread, leaves_main, Reach, begin,
  next,
}

-- What holds as long as nothing joins or detaches a thread.
pub record IsGoing (r : Run) : Type 0 where
  pub p1_left : r.p1_joinable ≡ true
  pub p2_left : (p : List ℕ × List ℕ) → r.threads ≡ some p → r.p2_joinable ≡ true
  pub main_waits : r.main_returned ≡ false
  pub outer_goes_on : r.outer_returned ≡ false

pub leave_outer-terminates :
    (r : Run) → r.p2_joinable ≡ true → leave_outer r ≡ record r { is_terminated = true }
unfolding leave_outer destroy_thread
leave_outer-terminates r joinable = rw joinable refl

pub leave_main-terminates :
    (r : Run) → r.p1_joinable ≡ true → leave_main r ≡ record r { is_terminated = true }
unfolding leave_main destroy_thread
leave_main-terminates r joinable = rw joinable refl

terminated-IsGoing : (r : Run) → IsGoing r → IsGoing (record r { is_terminated = true })
terminated-IsGoing r g = record {
  p1_left = g.p1_left;
  p2_left = g.p2_left;
  main_waits = g.main_waits;
  outer_goes_on = g.outer_goes_on;
}

ThreadStep-IsGoing : {r r' : Run} → ThreadStep r r' → IsGoing r → IsGoing r'
unfolding make_p2 print_outer print_inner
ThreadStep-IsGoing (makes_p2 r going here) g = record {
  p1_left = g.p1_left;
  p2_left = λ p e. refl;
  main_waits = g.main_waits;
  outer_goes_on = g.outer_goes_on;
}
ThreadStep-IsGoing (prints_outer b outer inner r going here) g = record {
  p1_left = g.p1_left;
  p2_left = λ p e. g.p2_left (b ∷ outer, inner) here;
  main_waits = g.main_waits;
  outer_goes_on = g.outer_goes_on;
}
ThreadStep-IsGoing (prints_inner b outer inner r going here) g = record {
  p1_left = g.p1_left;
  p2_left = λ p e. g.p2_left (outer, b ∷ inner) here;
  main_waits = g.main_waits;
  outer_goes_on = g.outer_goes_on;
}
ThreadStep-IsGoing (leaves_outer inner r going inside here) g =
    subst IsGoing (sym (leave_outer-terminates r (g.p2_left ([], inner) here)))
      (terminated-IsGoing r g)

Step-IsGoing : {r r' : Run} → Step r r' → IsGoing r → IsGoing r'
Step-IsGoing (of_thread st) g = ThreadStep-IsGoing st g
Step-IsGoing (leaves_main r going inside) g =
    subst IsGoing (sym (leave_main-terminates r g.p1_left)) (terminated-IsGoing r g)

pub Reach-IsGoing : {n : ℕ} {r : Run} → Reach n r → IsGoing r
Reach-IsGoing begin = record {
  p1_left = refl;
  p2_left = λ p e. absurd (cc e);
  main_waits = refl;
  outer_goes_on = refl;
}
Reach-IsGoing (next reached st) = Step-IsGoing st (Reach-IsGoing reached)
