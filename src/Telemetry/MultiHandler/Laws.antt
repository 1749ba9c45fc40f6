-- ===== src/Telemetry/MultiHandler/Laws.antt =====
-- Nesting handlers.
use finsplitter.Base.{ℕ, ◌≡◌, refl, false, List, [], ◌∷◌, ◌++◌, arith, Bool-cases, inl, inr}
use finsplitter.Effects.{ok, ◌>>◌}
use finsplitter.Effects.Laws.{run_cases, returns, fails, panics}
use finsplitter.Telemetry.MultiHandler.{Handler, multi_enabled, multi_handle, multi_handler}

module _ {W R : Type 0} (level : ℕ) (r : R) where
  multi_handle-append :
      (hs ks : List (Handler W R)) (w : W)
      → multi_handle (hs ++ ks) level r w ≡ (multi_handle hs level r >> multi_handle ks level r) w
  unfolding multi_handle
  multi_handle-append [] ks w = refl
  multi_handle-append (h ∷ hs) ks w = elim (Bool-cases (h.enabled level)) [
    | inl on ↦ elim (run_cases (h.handle level r w)) [
      | returns u v e ↦ let rest = multi_handle-append hs ks v in ground arith
      | fails z v e ↦ ground arith
      | panics p v e ↦ ground arith
    ]
    | inr off ↦ let rest = multi_handle-append hs ks w in ground arith
  ]

  multi_handle-none :
      (hs : List (Handler W R)) (w : W)
      → multi_enabled hs level ≡ false
      → multi_handle hs level r w ≡ (ok tt, w)
  unfolding multi_handle multi_enabled
  multi_handle-none [] w h = refl
  multi_handle-none (k ∷ hs) w h = elim (Bool-cases (k.enabled level)) [
    | inl on ↦ absurd (ground arith)
    | inr off ↦ let rest = multi_handle-none hs w (ground arith) in ground arith
  ]

  -- A handler that is itself made of handlers can be replaced by these, in their order: the same
  -- calls are made, with the same result.
  pub multi_handle-nested :
      (hs ks : List (Handler W R)) (w : W)
      → multi_handle (multi_handler hs ∷ ks) level r w ≡ multi_handle (hs ++ ks) level r w
  unfolding multi_handle
  multi_handle-nested hs ks w = elim (Bool-cases (multi_enabled hs level)) [
    | inl on ↦ let split = multi_handle-append hs ks w in ground arith
    | inr off ↦
        let split = multi_handle-append hs ks w in
        let nothing = multi_handle-none hs w off in ground arith
  ]
