-- ===== src/ClientProgram.antt =====
-- `main` of src/kMQTTc.cpp, whose two threads print beside it, as steps that come in any order.
pub mod Ends
pub mod Going
use k_mqttd.Base.{
  if◌then◌else◌, ℕ, suc, ◌≡◌, Bool, true, false, Option, none, some, List, [], ◌∷◌, ◌++◌, bytes,
}

-- What `p1` and `p2` have still to print, when `p1` has made `p2`; whether each of the two objects is
-- joinable, as a thread is from its making until it is joined or detached; what `std::cout` has got;
-- whether `main` has returned, and the function of `p1`; and whether `std::terminate` has been called.
pub record Run : Type 0 where
  pub threads : Option (List ℕ × List ℕ)
  pub p1_joinable : Bool
  pub p2_joinable : Bool
  pub printed : List ℕ
  pub main_returned : Bool
  pub outer_returned : Bool
  pub is_terminated : Bool

-- `main` has made `p1`, and waits in `getchar`.
abbrev pub start : Run
start = record {
  threads = none;
  p1_joinable = true;
  p2_joinable = false;
  printed = [];
  main_returned = false;
  outer_returned = false;
  is_terminated = false;
}

-- The texts with the byte of `std::endl`.
abbrev pub outer_text : List ℕ
outer_text = bytes "bbb" ++ (10 ∷ [])

abbrev pub inner_text : List ℕ
inner_text = bytes "aaa" ++ (10 ∷ [])

-- `p1` makes `p2`.
unfoldable pub make_p2 : Run → Run
make_p2 r = record r { threads = some (outer_text, inner_text); p2_joinable = true }

-- A byte from each of the threads: the bytes of two threads may come between each other.
unfoldable pub print_outer : ℕ → List ℕ → List ℕ → Run → Run
print_outer b outer inner r = record r {
  threads = some (outer, inner);
  printed = r.printed ++ (b ∷ []);
}

unfoldable pub print_inner : ℕ → List ℕ → List ℕ → Run → Run
print_inner b outer inner r = record r {
  threads = some (outer, inner);
  printed = r.printed ++ (b ∷ []);
}

-- The destructor of a thread: `std::terminate` if it is joinable.
unfoldable pub destroy_thread : Bool → Run → Run
destroy_thread joinable r = if joinable then record r { is_terminated = true } else r

-- The function of `p1` leaves the block of `p2`, and returns if that is possible.
unfoldable pub leave_outer : Run → Run
unfolding destroy_thread
leave_outer r =
    let left = destroy_thread r.p2_joinable r in
    if left.is_terminated then left else record left { outer_returned = true }

-- `main` leaves the block of `p1`, and returns if that is possible.
unfoldable pub leave_main : Run → Run
unfolding destroy_thread
leave_main r =
    let left = destroy_thread r.p1_joinable r in
    if left.is_terminated then left else record left { main_returned = true }

-- The threads without `main`.
pub data ThreadStep : Run → Run → Type 0 where
  makes_p2 : (r : Run) → r.is_terminated ≡ false → r.threads ≡ none → ThreadStep r (make_p2 r)
  prints_outer :
      (b : ℕ) (outer inner : List ℕ) (r : Run)
      → r.is_terminated ≡ false
      → r.threads ≡ some (b ∷ outer, inner)
      → ThreadStep r (print_outer b outer inner r)
  prints_inner :
      (b : ℕ) (outer inner : List ℕ) (r : Run)
      → r.is_terminated ≡ false
      → r.threads ≡ some (outer, b ∷ inner)
      → ThreadStep r (print_inner b outer inner r)
  leaves_outer :
      (inner : List ℕ) (r : Run)
      → r.is_terminated ≡ false
      → r.outer_returned ≡ false
      → r.threads ≡ some ([], inner)
      → ThreadStep r (leave_outer r)

-- A thread goes on, or `getchar` returns in `main`.
pub data Step : Run → Run → Type 0 where
  of_thread : {r r' : Run} → ThreadStep r r' → Step r r'
  leaves_main :
      (r : Run) → r.is_terminated ≡ false → r.main_returned ≡ false → Step r (leave_main r)

-- A run from `start`, with the number of its steps.
pub data Reach : ℕ → Run → Type 0 where
  begin : Reach 0 start
  next : {n : ℕ} {r r' : Run} → Reach n r → Step r r' → Reach (suc n) r'
