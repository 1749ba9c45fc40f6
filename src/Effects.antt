-- ===== src/Effects.antt =====
-- How the model runs Go code: a call reads and writes the outside world, and it returns a value,
-- returns a non-nil error, or panics. `W` is the state of everything outside the process (database,
-- identity provider, cache, clock), which the model takes as a parameter.
pub mod Laws
use Prim.Native.String.{String}

pub data Result (E A : Type 0) : Type 0 where
  ok : A → Result E A
  err : E → Result E A
  panic : String → Result E A

abbrev pub Action : Type 0 → Type 0 → Type 0 → Type 0
Action W E A = W → Result E A × W

module _ {W E : Type 0} {A : Type 0} where
  abbrev pub pure : A → Action W E A
  pure a w = (ok a, w)

  abbrev pub fail : E → Action W E A
  fail e w = (err e, w)

  abbrev pub lift : Result E A → Action W E A
  lift r w = (r, w)

-- `x, err := m()`, then one branch for `err == nil` and one for `err != nil`. A panic goes through.
abbrev pub catch :
    {W E F A B : Type 0} → Action W E A → (A → Action W F B) → (E → Action W F B) → Action W F B
catch m on_ok on_err w =
    let (r, w') = m w in
    elim r [ ok a ↦ on_ok a w' | err e ↦ on_err e w' | panic p ↦ (panic p, w') ]

-- `if err != nil { return nil, err }`
infixl 5 ◌>>=◌ ◌>>◌
abbrev pub ◌>>=◌ : {W E A B : Type 0} → Action W E A → (A → Action W E B) → Action W E B
m >>= f = catch m f fail

abbrev pub ◌>>◌ : {W E B : Type 0} → Action W E (Unit {0}) → Action W E B → Action W E B
m >> k = m >>= λ _. k

-- `if err != nil { return nil, f(err) }`
abbrev pub map_err : {W E F A : Type 0} → (E → F) → Action W E A → Action W F A
map_err f m = catch m pure (λ e. fail (f e))

-- `defer f()` in front of a body: the call runs after the body, however that ends.
abbrev pub deferring : {W E A : Type 0} → (W → W) → Action W E A → Action W E A
deferring f body w = let (r, v) = body w in (r, f v)

-- The same for a call that can fail: its error is dropped, and its panic is not.
abbrev pub deferring_call : {W E F A B : Type 0} → Action W F B → Action W E A → Action W E A
deferring_call {W} {E} {F} {A} f body w =
    let (r, v) = body w in
    let (s, x) = f v in
    elim s as (λ _. Result E A × W) [ ok _ ↦ (r, x) | err _ ↦ (r, x) | panic p ↦ (panic p, x) ]
