-- ===== src/Server/Accept.antt =====
-- Which connections become sessions of `MQTTServer`.
use k_mqttd.Base.{
  ◌≡◌, refl, sym, ap, ◌∙◌, Bool, true, false, not, none, some, List, [], ◌∷◌, ◌++◌, append_assoc,
  append-nil, if◌then◌else◌, Bool-cases, ◌⊎◌, Option-cases, inl, inr,
}
use k_mqttd.Session.State.{MqttSession}
use k_mqttd.Server.{MqttServer, is_listed, Accepted, new_session, start_accept, on_accept}

module _ {Address : Type 0} (same : Address → Address → Bool) where
  is_admitted : List Address → Accepted Address → Bool
  is_admitted black_list e = elim e.address [
    | none ↦ false
    | some a ↦ not (is_listed same a black_list)
  ]

  -- The sessions of the connections that are not on the black list.
  unfoldable pub admitted : List Address → List (Accepted Address) → List MqttSession
  unfolding is_admitted
  admitted black_list [] = []
  admitted black_list (e ∷ es) =
      let rest = admitted black_list es in
      if is_admitted black_list e then new_session e.now ∷ rest else rest

  pub on_accept_sessions :
      (e : Accepted Address) (s : MqttServer Address)
      → (on_accept same e s).sessions ≡ s.sessions ++ admitted s.black_list (e ∷ [])
  unfolding on_accept admitted start_accept
  on_accept_sessions e s = elim (Option-cases e.address) [
    | inl failed ↦ rw failed (sym (append-nil s.sessions))
    | inr (a, known) ↦ elim (Bool-cases (is_listed same a s.black_list)) [
      | inl listed ↦ rw (known, listed) (sym (append-nil s.sessions))
      | inr free ↦ rw (known, free) refl
    ]
  ]

  pub on_accept_list :
      (e : Accepted Address) (s : MqttServer Address)
      → ((on_accept same e s).black_list ≡ s.black_list)
        × ((on_accept same e s).is_accepting ≡ true)
  unfolding on_accept start_accept
  on_accept_list e s = elim (Option-cases e.address) [
    | inl failed ↦ rw failed (refl, refl)
    | inr (a, known) ↦ elim (Bool-cases (is_listed same a s.black_list)) [
      | inl listed ↦ rw (known, listed) (refl, refl)
      | inr free ↦ rw (known, free) (refl, refl)
    ]
  ]

  admitted_cons :
      (black_list : List Address) (e : Accepted Address) (es : List (Accepted Address))
      → admitted black_list (e ∷ es) ≡ admitted black_list (e ∷ []) ++ admitted black_list es
  unfolding admitted
  admitted_cons black_list e es = elim (Bool-cases (is_admitted black_list e)) [
    | inl free ↦ rw free refl
    | inr listed ↦ rw listed refl
  ]

  pub admitted_one :
      (black_list : List Address) (e : Accepted Address)
      → (admitted black_list (e ∷ []) ≡ [])
        ⊎ (admitted black_list (e ∷ []) ≡ new_session e.now ∷ [])
  unfolding admitted
  admitted_one black_list e = elim (Bool-cases (is_admitted black_list e)) [
    | inl free ↦ inr (rw free refl)
    | inr listed ↦ inl (rw listed refl)
  ]

  pub admitted-append :
      (black_list : List Address) (es : List (Accepted Address)) (e : Accepted Address)
      → admitted black_list (es ++ (e ∷ []))
        ≡ admitted black_list es ++ admitted black_list (e ∷ [])
  unfolding admitted
  admitted-append black_list [] e = refl
  admitted-append black_list (d ∷ es) e =
      admitted_cons black_list d (es ++ (e ∷ []))
      ∙ (ap (λ new. admitted black_list (d ∷ []) ++ new) (admitted-append black_list es e)
          ∙ (sym (
                append_assoc (admitted black_list (d ∷ [])) (admitted black_list es)
                  (admitted black_list (e ∷ [])))
              ∙ ap (λ old. old ++ admitted black_list (e ∷ []))
                  (sym (admitted_cons black_list d es))))
