-- ===== src/Effects/Laws.antt =====
-- Taking the run of a call apart.
use finsplitter.Base.{String, ◌≡◌, refl, arith}
use finsplitter.Effects.{Result, ok, err, panic, Action, catch, pure, fail, ◌>>=◌}

-- How a call can end, with the state that it leaves.
pub data RunCases {W E A : Type 0} (x : Result E A × W) : Type 0 where
  returns : (a : A) (v : W) → x ≡ (ok a, v) → RunCases x
  fails : (e : E) (v : W) → x ≡ (err e, v) → RunCases x
  panics : (p : String) (v : W) → x ≡ (panic p, v) → RunCases x

pub run_cases : {W E A : Type 0} (x : Result E A × W) → RunCases x
run_cases (ok a, v) = returns a v refl
run_cases (err e, v) = fails e v refl
run_cases (panic p, v) = panics p v refl

module _ {W E A B : Type 0} where
  pub >>=-eq-ok :
      (m : Action W E A) (f : A → Action W E B) (w : W) {b : B} {w' : W}
      → (m >>= f) w ≡ (ok b, w')
      → (a : A) × (v : W) × (m w ≡ (ok a, v)) × (f a v ≡ (ok b, w'))
  >>=-eq-ok m f w h = elim (run_cases (m w)) [
    | returns a v e ↦ (a, v, e, ground arith)
    | fails e v q ↦ absurd (ground arith)
    | panics p v q ↦ absurd (ground arith)
  ]

-- A call that maps its value and its error on, and succeeds, has succeeded.
pub catch-eq-ok :
    {W E F A B : Type 0} (m : Action W E A) (f : E → F) (g : A → B) (w : W) {b : B} {w' : W}
    → catch m (λ a. pure (g a)) (λ e. fail (f e)) w ≡ (ok b, w')
    → (a : A) × (m w ≡ (ok a, w')) × (b ≡ g a)
catch-eq-ok m f g w h = elim (run_cases (m w)) [
  | returns a v e ↦ (a, ground arith, ground arith)
  | fails e v q ↦ absurd (ground arith)
  | panics p v q ↦ absurd (ground arith)
]

-- One that fails has failed.
pub catch-eq-err :
    {W E F A B : Type 0} (m : Action W E A) (f : E → F) (g : A → B) (w : W) {e : F} {w' : W}
    → catch m (λ a. pure (g a)) (λ c. fail (f c)) w ≡ (err e, w')
    → (c : E) × (m w ≡ (err c, w')) × (e ≡ f c)
catch-eq-err m f g w h = elim (run_cases (m w)) [
  | returns a v e ↦ absurd (ground arith)
  | fails c v q ↦ (c, ground arith, ground arith)
  | panics p v q ↦ absurd (ground arith)
]
