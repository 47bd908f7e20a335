-- ===== src/Server/Steps/Reached.antt =====
-- What holds of all sessions of a server, in whatever order connections come and sessions go on.
use k_mqttd.Base.{Bool, true, ap, ◌∙◌, ◌≡◌, refl, sym, subst, List, [], ◌∷◌, ◌++◌, inl, inr}
use k_mqttd.Session.State.{MqttSession}
use k_mqttd.Session.Message.Valid.{IsValid}
use k_mqttd.Session.Steps
use k_mqttd.Session.Steps.Reached.{Reach-IsValid, Step-IsValid}
use k_mqttd.Server.{MqttServer, Accepted, make, on_accept}
use k_mqttd.Server.Accept.{
  admitted, admitted_one, on_accept_sessions, on_accept_list, admitted-append,
}
use k_mqttd.Server.Steps.{Step, accept, session, Reach, begin, next}

abbrev pub AllValid : List MqttSession → Type 0
AllValid [] = Unit
AllValid (x ∷ xs) = IsValid x × AllValid xs

-- The sessions are, in order, what their own steps have made of the sessions that were started.
abbrev pub AllFollow : List MqttSession → List MqttSession → Type 0
AllFollow [] [] = Unit
AllFollow (x ∷ xs) (y ∷ ys) = Steps.Follows x y × AllFollow xs ys
AllFollow _ _ = ⊥

AllFollow-append :
    (xs ys xs' ys' : List MqttSession)
    → AllFollow xs ys
    → AllFollow xs' ys'
    → AllFollow (xs ++ xs') (ys ++ ys')
AllFollow-append [] [] xs' ys' h h' = h'
AllFollow-append (x ∷ xs) (y ∷ ys) xs' ys' h h' = (h.0, AllFollow-append xs ys xs' ys' h.1 h')
AllFollow-append [] (y ∷ ys) xs' ys' h h' = absurd h
AllFollow-append (x ∷ xs) [] xs' ys' h h' = absurd h

AllFollow-refl : (xs : List MqttSession) → AllFollow xs xs
AllFollow-refl [] = tt
AllFollow-refl (x ∷ xs) = (Steps.stays, AllFollow-refl xs)

AllFollow-replace :
    (begun before later : List MqttSession) (x x' : MqttSession)
    → Steps.Step x x'
    → AllFollow begun (before ++ (x ∷ later))
    → AllFollow begun (before ++ (x' ∷ later))
AllFollow-replace [] [] later x x' step h = absurd h
AllFollow-replace [] (y ∷ before) later x x' step h = absurd h
AllFollow-replace (b ∷ begun) [] later x x' step h = (Steps.goes_on h.0 step, h.1)
AllFollow-replace (b ∷ begun) (y ∷ before) later x x' step h =
    (h.0, AllFollow-replace begun before later x x' step h.1)

Follows-IsValid : {s t : MqttSession} → Steps.Follows s t → IsValid s → IsValid t
Follows-IsValid Steps.stays v = v
Follows-IsValid (Steps.goes_on before step) v = Step-IsValid step (Follows-IsValid before v)

AllFollow-AllValid : (xs ys : List MqttSession) → AllFollow xs ys → AllValid xs → AllValid ys
AllFollow-AllValid [] [] h v = tt
AllFollow-AllValid (x ∷ xs) (y ∷ ys) h v =
    (Follows-IsValid h.0 v.0, AllFollow-AllValid xs ys h.1 v.1)
AllFollow-AllValid [] (y ∷ ys) h v = absurd h
AllFollow-AllValid (x ∷ xs) [] h v = absurd h

append-AllValid : (xs ys : List MqttSession) → AllValid xs → AllValid ys → AllValid (xs ++ ys)
append-AllValid [] ys hx hy = hy
append-AllValid (x ∷ xs) ys hx hy = (hx.0, append-AllValid xs ys hx.1 hy)

module _ {Address : Type 0} (same : Address → Address → Bool) where
  admitted_one-AllValid :
      (black_list : List Address) (e : Accepted Address)
      → AllValid (admitted same black_list (e ∷ []))
  admitted_one-AllValid black_list e = elim (admitted_one same black_list e) [
    | inl none_new ↦ subst AllValid (sym none_new) tt
    | inr one ↦ subst AllValid (sym one) (Reach-IsValid (Steps.begin e.now), tt)
  ]

  -- The sessions that were started, what they are now, and the server itself.
  record IsServing (es : List (Accepted Address)) (s : MqttServer Address) : Type 0 where
    started_valid : AllValid (admitted same [] es)
    follow : AllFollow (admitted same [] es) s.sessions
    no_black_list : s.black_list ≡ []
    waiting : s.is_accepting ≡ true

  Step-IsServing :
      {es : List (Accepted Address)} {s s' : MqttServer Address}
      → Step s s'
      → IsServing es s
      → IsServing es s'
  Step-IsServing {es} (session s before later x x' which step) h = record {
    started_valid = h.started_valid;
    follow =
        AllFollow-replace (admitted same [] es) before later x x' step
          (subst (AllFollow (admitted same [] es)) which h.follow);
    no_black_list = h.no_black_list;
    waiting = h.waiting;
  }

  accept-IsServing :
      (es : List (Accepted Address)) (s : MqttServer Address) (e : Accepted Address)
      → IsServing es s
      → IsServing (es ++ (e ∷ [])) (on_accept same e s)
  accept-IsServing es s e h =
      let new = admitted same [] (e ∷ []) in
      let begun = admitted-append same [] es e in
      let now : (on_accept same e s).sessions ≡ s.sessions ++ new =
        on_accept_sessions same e s
        ∙ ap (λ b. s.sessions ++ admitted same b (e ∷ [])) h.no_black_list in
      record {
        started_valid = subst AllValid (sym begun) (
            append-AllValid (admitted same [] es) new h.started_valid (admitted_one-AllValid [] e));
        follow =
            subst (λ xs. AllFollow xs (on_accept same e s).sessions) (sym begun)
              (subst (AllFollow (admitted same [] es ++ new)) (sym now) (
                AllFollow-append (admitted same [] es) s.sessions new new h.follow
                  (AllFollow-refl new)));
        no_black_list = (on_accept_list same e s).0 ∙ h.no_black_list;
        waiting = (on_accept_list same e s).1;
      }

  Reach-IsServing :
      {es : List (Accepted Address)} {s : MqttServer Address} → Reach same es s → IsServing es s
  unfolding make admitted
  Reach-IsServing (begin n_threads) = record {
    started_valid = tt;
    follow = tt;
    no_black_list = refl;
    waiting = refl;
  }
  Reach-IsServing (accept {es} {s} e reached waits) =
      accept-IsServing es s e (Reach-IsServing reached)
  Reach-IsServing (next reached step) = Step-IsServing step (Reach-IsServing reached)

  -- In whatever order connections come and the sessions take their steps, as long as the behaviour is
  -- defined: the server has one session for each connection that came without an error and with an
  -- address that the empty black list admits, in order, and each is what its own steps have made of the
  -- session that was started for the connection; in each the reads stay within the head, or within three
  -- bytes behind the vector of the message, and a session whose reading has ended in an error is closed;
  -- and the server waits for the next connection.
  pub Reach-AllValid :
      {es : List (Accepted Address)} {s : MqttServer Address}
      → Reach same es s
      → AllFollow (admitted same [] es) s.sessions × AllValid s.sessions × (s.is_accepting ≡ true)
  Reach-AllValid {es} {s} reached =
      let h = Reach-IsServing reached in
      (
        h.follow,
        AllFollow-AllValid (admitted same [] es) s.sessions h.follow h.started_valid,
        h.waiting,
      )
