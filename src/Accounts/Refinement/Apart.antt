-- ===== src/Accounts/Refinement/Apart.antt =====
-- Calls that return and leave the table alone, and what is made of them.
use finsplitter.Traces.{IsPassage}
use finsplitter.Accounts.Spec.{Users}
use finsplitter.Base.{◌≡◌, refl, Bool, false, true, if◌then◌else◌, arith}
use finsplitter.Effects.{Result, ok, err, panic, Action, pure, fail, catch}
use finsplitter.Errs.{Error, is, duplicate, invalid_input, username_taken, user_already_exists}
use finsplitter.Accounts.Refinement.{IsForeign, IsReturned, IsApart}

module _ {W : Type 0} {amid : Users → Users → Type 0} (pass : IsPassage amid)
    (seen : W → Users) where
  -- A call and what follows it, on either result
  pub catch-IsApart :
      {A B : Type 0} (m : Action W Error A) (f : A → Action W Error B)
      (g : Error → Action W Error B) (w : W)
      → IsApart amid seen m w
      → ((a : A) (v : W) → IsApart amid seen (f a) v)
      → ((e : Error) (v : W) → IsForeign e → IsApart amid seen (g e) v)
      → IsApart amid seen (catch m f g) w
  catch-IsApart {A} {B} m f g w h on_ok on_err = go h.result h.after h.runs h.returned h.apart
    where
      go :
          (r : Result Error A) (v : W)
          → m w ≡ (r, v)
          → IsReturned r
          → amid (seen w) (seen v)
          → IsApart amid seen (catch m f g) w
      go (ok a) v q returned same =
          let rest = on_ok a v in
          record {
            result = rest.result;
            after = rest.after;
            runs = ground (arith, rest.runs);
            returned = rest.returned;
            apart = pass.both same rest.apart;
          }
      go (err e) v q foreign same =
          let rest = on_err e v foreign in
          record {
            result = rest.result;
            after = rest.after;
            runs = ground (arith, rest.runs);
            returned = rest.returned;
            apart = pass.both same rest.apart;
          }
      go (panic _) v q returned same = absurd returned

  pub fail-IsApart :
      {A : Type 0} (e : Error) (w : W)
      → is e duplicate ≡ false
      → is e invalid_input ≡ false
      → is e username_taken ≡ false
      → is e user_already_exists ≡ false
      → IsApart amid seen {A = A} (fail e) w
  fail-IsApart e w d i t x = record {
    result = err e;
    after = w;
    runs = refl;
    returned = record {
      not_duplicate = d;
      not_invalid_input = i;
      not_username_taken = t;
      not_user_already_exists = x;
    };
    apart = pass.nothing (seen w);
  }

  pub if-IsApart :
      {A : Type 0} (b : Bool) (w : W) {m n : Action W Error A}
      → IsApart amid seen m w
      → IsApart amid seen n w
      → IsApart amid seen (if b then m else n) w
  if-IsApart true w h k = h
  if-IsApart false w h k = k

  pub pure-IsApart : {A : Type 0} (a : A) (w : W) → IsApart amid seen (pure a) w
  pure-IsApart a w = record {
    result = ok a;
    after = w;
    runs = refl;
    returned = tt;
    apart = pass.nothing (seen w);
  }
