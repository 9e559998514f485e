-- ===== src/State/Fresh.antt =====
-- The double-spend check of `validate_body`.
use ddk.Prelude.{
  ◌≡◌, ◌≢◌, refl, sym, inl, inr, List, [], ◌∷◌, ◌++◌, arith, ok, All, true, false, Bool-cases,
}
use ddk.Types.{OutPoint, out_point_key}
use ddk.State.{contains, check_inputs}

-- No outpoint stands twice.
abbrev pub Distinct : List OutPoint → Type 0
Distinct [] = Unit
Distinct (i ∷ is) = All (λ j. i ≢ j) is × Distinct is

-- No outpoint stands twice, or among those that were spent before.
abbrev pub Fresh : List OutPoint → List OutPoint → Type 0
Fresh spent [] = Unit
Fresh spent (i ∷ is) = All (λ j. i ≢ j) spent × Fresh (i ∷ spent) is

-- The set of spent outpoints after the loop.
abbrev pub mark : List OutPoint → List OutPoint → List OutPoint
mark spent [] = spent
mark spent (i ∷ is) = mark (i ∷ spent) is

pub contains-false :
    (i : OutPoint) (js : List OutPoint) → contains i js ≡ false → All (λ j. i ≢ j) js
unfolding contains
contains-false i [] h = tt
contains-false i (j ∷ js) h = elim (out_point_key.discrete i j) [
  | yes p ↦ absurd (ground arith)
  | no p ↦ (p, contains-false i js (ground arith))
]

contains-true : (i : OutPoint) (js : List OutPoint) → contains i js ≡ true → ¬ All (λ j. i ≢ j) js
unfolding contains
contains-true i [] h = cc
contains-true i (j ∷ js) h = λ a. elim (out_point_key.discrete i j) [
  | yes p ↦ a.0 p
  | no p ↦ contains-true i js (ground arith) a.1
]

pub check_inputs-Fresh :
    (spent is : List OutPoint) {after : List OutPoint}
    → check_inputs spent is ≡ ok after
    → Fresh spent is × (after ≡ mark spent is)
unfolding check_inputs
check_inputs-Fresh spent [] h = (tt, ground arith)
check_inputs-Fresh spent (i ∷ is) h = elim (Bool-cases (contains i spent)) [
  | inl seen ↦ absurd (ground arith)
  | inr new ↦
      let (fresh, same) = check_inputs-Fresh (i ∷ spent) is (ground arith) in
      ((contains-false i spent new, fresh), same)
]

pub Fresh-check_inputs :
    (spent is : List OutPoint) → Fresh spent is → check_inputs spent is ≡ ok (mark spent is)
unfolding check_inputs
Fresh-check_inputs spent [] h = refl
Fresh-check_inputs spent (i ∷ is) h = elim (Bool-cases (contains i spent)) [
  | inl seen ↦ absurd (contains-true i spent seen h.0)
  | inr new ↦ rw new (Fresh-check_inputs (i ∷ spent) is h.1)
]

pub Fresh-append :
    (spent is js : List OutPoint)
    → Fresh spent is
    → Fresh (mark spent is) js
    → Fresh spent (is ++ js)
Fresh-append spent [] js h k = k
Fresh-append spent (i ∷ is) js h k = (h.0, Fresh-append (i ∷ spent) is js h.1 k)

-- None of the outpoints is among those that were spent.
abbrev pub Avoids : List OutPoint → List OutPoint → Type 0
Avoids spent is = All (λ i. All (λ j. i ≢ j) spent) is

Avoids-head :
    (i : OutPoint) (spent is : List OutPoint) → Avoids (i ∷ spent) is → All (λ j. i ≢ j) is
Avoids-head i spent [] h = tt
Avoids-head i spent (j ∷ js) h = (λ e. h.0.0 (sym e), Avoids-head i spent js h.1)

Avoids-tail : (i : OutPoint) (spent is : List OutPoint) → Avoids (i ∷ spent) is → Avoids spent is
Avoids-tail i spent [] h = tt
Avoids-tail i spent (j ∷ js) h = (h.0.1, Avoids-tail i spent js h.1)

Fresh-Avoids : (spent is : List OutPoint) → Fresh spent is → Avoids spent is × Distinct is
Fresh-Avoids spent [] h = (tt, tt)
Fresh-Avoids spent (i ∷ is) h =
    let (apart, distinct) = Fresh-Avoids (i ∷ spent) is h.1 in
    ((h.0, Avoids-tail i spent is apart), (Avoids-head i spent is apart, distinct))

pub Fresh-Distinct : (is : List OutPoint) → Fresh [] is → Distinct is
Fresh-Distinct is h = (Fresh-Avoids [] is h).1

Avoids-cons :
    (i : OutPoint) (spent is : List OutPoint)
    → All (λ j. i ≢ j) is
    → Avoids spent is
    → Avoids (i ∷ spent) is
Avoids-cons i spent [] a h = tt
Avoids-cons i spent (j ∷ js) a h = ((λ e. a.0 (sym e), h.0), Avoids-cons i spent js a.1 h.1)

pub Avoids-Fresh : (spent is : List OutPoint) → Avoids spent is → Distinct is → Fresh spent is
Avoids-Fresh spent [] h d = tt
Avoids-Fresh spent (i ∷ is) h d =
    (h.0, Avoids-Fresh (i ∷ spent) is (Avoids-cons i spent is d.0 h.1) d.1)
