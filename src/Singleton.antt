-- ===== src/Singleton.antt =====
-- `Singleton` of src/CppUtils.hpp. A type list is what `Args` of `getInstance` stands for, by a number; a
-- function template has a static instance for each of them.
use k_mqttd.Base.{ℕ, ◌≡◌, List, [], ◌∷◌, ◌==◌, if◌then◌else◌, Option, none, some, arith, ap, ◌∙◌}

-- The static instances that have been made.
abbrev pub Statics : Type 0 → Type 0
Statics T = List (ℕ × T)

abbrev pub instance_of : {T : Type 0} → ℕ → Statics T → Option T
instance_of types [] = none
instance_of types ((i, t) ∷ s) = if i == types then some t else instance_of types s

-- A call: the types of its arguments, and the object that the constructor makes of them, unless it throws.
pub record Call (T : Type 0) : Type 0 where
  pub types : ℕ
  pub constructed : Option T

-- The instance, if there is none the one that the constructor makes, and the instances after the call.
unfoldable pub get_instance : {T : Type 0} → Call T → Statics T → Option T × Statics T
get_instance call s = elim (instance_of call.types s) [
  | some t ↦ (some t, s)
  | none ↦ elim call.constructed [ none ↦ (none, s) | some t ↦ (some t, (call.types, t) ∷ s) ]
]

-- The calls one after the other, the first one first.
abbrev pub get_all : {T : Type 0} → List (Call T) → Statics T → Statics T
get_all [] s = s
get_all (call ∷ calls) s = get_all calls (get_instance call s).1

-- The object of the first call with these types whose constructor does not throw.
abbrev pub first_made : {T : Type 0} → ℕ → List (Call T) → Option T
first_made types [] = none
first_made types (call ∷ calls) =
    let later = first_made types calls in
    if call.types == types
    then (elim call.constructed [ none ↦ later | some t ↦ some t ])
    else later

abbrev or_else : {T : Type 0} → Option T → Option T → Option T
or_else none later = later
or_else (some t) later = some t

module _ {T : Type 0} where
  after_call :
      (types : ℕ) (call : Call T) (s : Statics T)
      → instance_of types (get_instance call s).1
        ≡ or_else (instance_of types s) (if call.types == types then call.constructed else none)
  unfolding get_instance
  after_call types call s = ground arith

  -- After any calls the instance for a list of types is the one that was there before, or else the
  -- object of the first call with these types whose constructor did not throw: calls with other
  -- types have no part in it.
  instance_of-get_all :
      (types : ℕ) (calls : List (Call T)) (s : Statics T)
      → instance_of types (get_all calls s) ≡ or_else (instance_of types s) (first_made types calls)
  instance_of-get_all types [] s = ground arith
  instance_of-get_all types (call ∷ calls) s =
      instance_of-get_all types calls (get_instance call s).1
      ∙ ap (λ o. or_else o (first_made types calls)) (after_call types call s)
      ∙ ground arith
