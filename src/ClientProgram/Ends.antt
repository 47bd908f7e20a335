-- ===== src/ClientProgram/Ends.antt =====
-- How the program of src/kMQTTc.cpp ends, and what it prints.

use k_mqttd.Base.{
  sym, ℕ, suc, ◌+◌, ◌≤◌, ◌≡◌, ◌⊎◌, inl, inr, refl, subst, ◌∙◌, true, false, Option, none, some,
  List, [], ◌∷◌, ◌++◌, length, append_assoc, arith, if◌then◌else◌, Bool-cases,
}
use k_mqttd.ClientProgram.Going.{
  IsGoing, leave_outer-terminates, leave_main-terminates, Reach-IsGoing,
}
use k_mqttd.ClientProgram.{
  Run, outer_text, inner_text, make_p2, print_outer, print_inner, leave_outer, ThreadStep, makes_p2,
  prints_outer, leaves_outer, prints_inner, Step, of_thread, leaves_main, Reach, begin, next,
}

-- What the threads have still to print.
abbrev pub rests : Option (List ℕ × List ℕ) → List ℕ × List ℕ
rests none = (outer_text, inner_text)
rests (some p) = p

abbrev places_left : Option (List ℕ × List ℕ) → ℕ
places_left none = 10
places_left (some (outer, inner)) = 1 + (length outer + length inner)

-- The steps that are left at most.
abbrev steps_left : Run → ℕ
steps_left r = if r.is_terminated then 0 else places_left r.threads

-- A list that has the elements of two lists, each in its order.
pub data Merge {A : Type 0} : List A → List A → List A → Type 0 where
  nothing : Merge [] [] []
  left : {xs ys zs : List A} (x : A) → Merge xs ys zs → Merge (x ∷ xs) ys (x ∷ zs)
  right : {xs ys zs : List A} (y : A) → Merge xs ys zs → Merge xs (y ∷ ys) (y ∷ zs)

Merge-left :
    {A : Type 0} {xs ys zs : List A} (w : A)
    → Merge xs ys zs
    → Merge (xs ++ (w ∷ [])) ys (zs ++ (w ∷ []))
Merge-left w nothing = left w nothing
Merge-left w (left x m) = left x (Merge-left w m)
Merge-left w (right y m) = right y (Merge-left w m)

Merge-right :
    {A : Type 0} {xs ys zs : List A} (w : A)
    → Merge xs ys zs
    → Merge xs (ys ++ (w ∷ [])) (zs ++ (w ∷ []))
Merge-right w nothing = right w nothing
Merge-right w (left x m) = left x (Merge-right w m)
Merge-right w (right y m) = right y (Merge-right w m)

-- What has been printed: of each text the bytes that are not still to print, each text in its order.
pub record IsPrinted (r : Run) : Type 0 where
  pub outer : List ℕ
  pub inner : List ℕ
  pub outer_whole : outer ++ (rests r.threads).0 ≡ outer_text
  pub inner_whole : inner ++ (rests r.threads).1 ≡ inner_text
  pub merged : Merge outer inner r.printed

places_left-pos : (t : Option (List ℕ × List ℕ)) → 1 ≤ places_left t
places_left-pos none = omega arith
places_left-pos (some (outer, inner)) = omega arith

terminated-fewer :
    (r : Run)
    → r.is_terminated ≡ false
    → suc (steps_left (record r { is_terminated = true })) ≤ steps_left r
terminated-fewer r going = rw (going) (places_left-pos r.threads)

ThreadStep-fewer : {r r' : Run} → ThreadStep r r' → IsGoing r → suc (steps_left r') ≤ steps_left r
unfolding make_p2 print_outer print_inner
ThreadStep-fewer (makes_p2 r going here) g = rw (going, here) (omega arith)
ThreadStep-fewer (prints_outer b outer inner r going here) g = rw (going, here) (omega arith)
ThreadStep-fewer (prints_inner b outer inner r going here) g = rw (going, here) (omega arith)
ThreadStep-fewer (leaves_outer inner r going inside here) g =
    subst (λ t. suc (steps_left t) ≤ steps_left r)
      (sym (leave_outer-terminates r (g.p2_left ([], inner) here))) (terminated-fewer r going)

Step-fewer : {r r' : Run} → Step r r' → IsGoing r → suc (steps_left r') ≤ steps_left r
Step-fewer (of_thread st) g = ThreadStep-fewer st g
Step-fewer (leaves_main r going inside) g =
    subst (λ t. suc (steps_left t) ≤ steps_left r) (sym (leave_main-terminates r g.p1_left))
      (terminated-fewer r going)

take_one :
    (xs : List ℕ) (b : ℕ) (rest whole : List ℕ)
    → xs ++ (b ∷ rest) ≡ whole
    → (xs ++ (b ∷ [])) ++ rest ≡ whole
take_one xs b rest whole e = append_assoc xs (b ∷ []) rest ∙ e

terminated-IsPrinted : (r : Run) → IsPrinted r → IsPrinted (record r { is_terminated = true })
terminated-IsPrinted r h = record {
  outer = h.outer;
  inner = h.inner;
  outer_whole = h.outer_whole;
  inner_whole = h.inner_whole;
  merged = h.merged;
}

ThreadStep-IsPrinted : {r r' : Run} → ThreadStep r r' → IsPrinted r → IsGoing r → IsPrinted r'
unfolding make_p2 print_outer print_inner
ThreadStep-IsPrinted (makes_p2 r going here) h g = record {
  outer = h.outer;
  inner = h.inner;
  outer_whole = subst (λ t. h.outer ++ (rests t).0 ≡ outer_text) here h.outer_whole;
  inner_whole = subst (λ t. h.inner ++ (rests t).1 ≡ inner_text) here h.inner_whole;
  merged = h.merged;
}
ThreadStep-IsPrinted (prints_outer b outer inner r going here) h g = record {
  outer = h.outer ++ (b ∷ []);
  inner = h.inner;
  outer_whole =
      take_one h.outer b outer outer_text
        (subst (λ t. h.outer ++ (rests t).0 ≡ outer_text) here h.outer_whole);
  inner_whole = subst (λ t. h.inner ++ (rests t).1 ≡ inner_text) here h.inner_whole;
  merged = Merge-left b h.merged;
}
ThreadStep-IsPrinted (prints_inner b outer inner r going here) h g = record {
  outer = h.outer;
  inner = h.inner ++ (b ∷ []);
  outer_whole = subst (λ t. h.outer ++ (rests t).0 ≡ outer_text) here h.outer_whole;
  inner_whole =
      take_one h.inner b inner inner_text
        (subst (λ t. h.inner ++ (rests t).1 ≡ inner_text) here h.inner_whole);
  merged = Merge-right b h.merged;
}
ThreadStep-IsPrinted (leaves_outer inner r going inside here) h g =
    subst IsPrinted (sym (leave_outer-terminates r (g.p2_left ([], inner) here)))
      (terminated-IsPrinted r h)

Step-IsPrinted : {r r' : Run} → Step r r' → IsPrinted r → IsGoing r → IsPrinted r'
Step-IsPrinted (of_thread st) h g = ThreadStep-IsPrinted st h g
Step-IsPrinted (leaves_main r going inside) h g =
    subst IsPrinted (sym (leave_main-terminates r g.p1_left)) (terminated-IsPrinted r h)

Reach-fewer : {n : ℕ} {r : Run} → Reach n r → n + steps_left r ≤ 10
Reach-fewer begin = omega arith
Reach-fewer (next reached st) =
    let before = Reach-fewer reached in
    let fewer = Step-fewer st (Reach-IsGoing reached) in omega arith

Reach-IsPrinted : {n : ℕ} {r : Run} → Reach n r → IsPrinted r
Reach-IsPrinted begin = record {
  outer = [];
  inner = [];
  outer_whole = refl;
  inner_whole = refl;
  merged = nothing;
}
Reach-IsPrinted (next reached st) =
    Step-IsPrinted st (Reach-IsPrinted reached) (Reach-IsGoing reached)

-- While `getchar` waits, `p1` can go on.
goes_on :
    (r : Run) (t : Option (List ℕ × List ℕ))
    → r.threads ≡ t
    → r.is_terminated ≡ false
    → r.outer_returned ≡ false
    → (r' : Run) × ThreadStep r r'
goes_on r none here going inside = (make_p2 r, makes_p2 r going here)
goes_on r (some ([], inner)) here going inside =
    (leave_outer r, leaves_outer inner r going inside here)
goes_on r (some (b ∷ outer, inner)) here going inside =
    (print_outer b outer inner r, prints_outer b outer inner r going here)

-- In whatever order the threads print, and whenever `getchar` returns: neither `main` nor the function of
-- `p1` ever returns; a run has ten steps at most; as long as `std::terminate` has not been called, one of
-- the two threads can go on, also if `getchar` waits for ever; and what has been printed has of each of
-- the two texts some first bytes, in their order.
pub Reach-ends :
    {n : ℕ} {r : Run}
    → Reach n r
    → (r.main_returned ≡ false)
      × (r.outer_returned ≡ false)
      × (n ≤ 10)
      × ((r.is_terminated ≡ true) ⊎ ((r' : Run) × ThreadStep r r'))
      × IsPrinted r
Reach-ends {r} reached =
    let g = Reach-IsGoing reached in
    let few = Reach-fewer reached in
    (
      g.main_waits,
      g.outer_goes_on,
      omega arith,
      elim (Bool-cases r.is_terminated) [
        | inl ended ↦ inl ended
        | inr going ↦ inr (goes_on r r.threads refl going g.outer_goes_on)
      ],
      Reach-IsPrinted reached,
    )
