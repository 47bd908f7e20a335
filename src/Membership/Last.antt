-- ===== src/Membership/Last.antt =====
-- A client's last call tells whether it is in the channel.
use k_mqttd.Base.{
  ℕ, Bool, not, ◌&&◌, ◌||◌, ◌≡◌, refl, ap, ◌∙◌, List, [], ◌∷◌, bytes_eq, bytes_eq_iff, arith,
  Bool-cases, inl, inr,
}
use k_mqttd.Membership.{contains, join, leave}

-- A call of `join` or of `leave`.
pub data Call : Type 0 where
  joins leaves : List ℕ → Call

apply : Call → List (List ℕ) → List (List ℕ)
apply (joins c) clients = join c clients
apply (leaves c) clients = leave c clients

pub run : List Call → List (List ℕ) → List (List ℕ)
unfolding apply
run [] clients = clients
run (c ∷ cs) clients = run cs (apply c clients)

-- The set of clients as a function.
pub member_after : List Call → List ℕ → Bool → Bool
member_after [] x before = before
member_after (joins c ∷ cs) x before = member_after cs x (bytes_eq x c || before)
member_after (leaves c ∷ cs) x before = member_after cs x (not (bytes_eq x c) && before)

contains-join :
    (x c : List ℕ) (cs : List (List ℕ)) → contains x (join c cs) ≡ (bytes_eq x c || contains x cs)
unfolding join
contains-join x c cs = elim (Bool-cases (contains c cs)) [
  | inl there ↦ elim (Bool-cases (bytes_eq x c)) [
    | inl same ↦
        let e : x ≡ c = (bytes_eq_iff x c).0 same in
        rw (there, same) (ap (λ y. contains y cs) e ∙ there)
    | inr apart ↦ rw (there, apart) refl
  ]
  | inr new ↦ rw new refl
]

contains-leave :
    (x c : List ℕ) (cs : List (List ℕ))
    → contains x (leave c cs) ≡ (not (bytes_eq x c) && contains x cs)
unfolding leave
contains-leave x c [] = ground arith
contains-leave x c (y ∷ ys) =
    ground (arith, contains-leave x c ys, bytes_eq_iff x c, bytes_eq_iff c y, bytes_eq_iff x y)

-- After any calls of `join` and `leave` a client is in the channel exactly if its last call was `join`,
-- or if it was in the channel before and has made no call.
pub contains-run :
    (calls : List Call) (x : List ℕ) (clients : List (List ℕ))
    → contains x (run calls clients) ≡ member_after calls x (contains x clients)
unfolding run apply member_after
contains-run [] x clients = refl
contains-run (joins c ∷ cs) x clients =
    contains-run cs x (join c clients) ∙ ap (member_after cs x) (contains-join x c clients)
contains-run (leaves c ∷ cs) x clients =
    contains-run cs x (leave c clients) ∙ ap (member_after cs x) (contains-leave x c clients)
