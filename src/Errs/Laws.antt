-- ===== src/Errs/Laws.antt =====
-- errors.Is through the layers of a wrapped error.
use finsplitter.Base.{◌≡◌, refl, String, true, eqb_iff}
use finsplitter.Errs.{Sentinel, Error, sentinel, is, place, prefixed}

pub is-prefixed : (t : String) (e : Error) (s : Sentinel) → is (prefixed t e) s ≡ is e s
is-prefixed t e s = refl

pub is-sentinel_self : (s : Sentinel) → is (sentinel s) s ≡ true
is-sentinel_self s = (eqb_iff (place s) (place s)).1 refl
