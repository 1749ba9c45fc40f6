-- ===== src/Postgres/Tx/Laws.antt =====
-- What a transaction guarantees to the use case that runs in it.
use finsplitter.Base.{ap, ℕ, String, ◌≡◌, refl, ◌⊎◌, inl, inr, false, arith, Bool-cases}
use finsplitter.Effects.{Result, ok, err, panic, Action}
use finsplitter.Effects.Laws.{run_cases, returns, fails, panics}
use finsplitter.Errs.{Error, prefixed}
use finsplitter.Domain.Context as C
use finsplitter.Domain.Context.{Ctx, has_tx, with_tx_value}
use finsplitter.Postgres.Driver.{Database, IsTransactional}
use finsplitter.Postgres.Tx.{with_tx}

module _ {W : Type 0} (db : Database W) {A : Type 0} where
  -- Begin, the callback on the context of the new transaction, and Commit, all three successful.
  pub record IsCommitted (ctx : Ctx) (f : Ctx → Action W Error A) (w : W) (a : A) (w' : W)
      : Type 0 where
    pub tx : ℕ
    pub begun : W
    pub worked : W
    pub no_outer : has_tx ctx ≡ false
    pub begins : db.begin w ≡ (ok tx, begun)
    pub works : f (with_tx_value (C.with_tx ctx) tx) begun ≡ (ok a, worked)
    pub commits : db.commit tx worked ≡ (ok tt, w')

  pub with_tx-eq-ok :
      (ctx : Ctx) (f : Ctx → Action W Error A) (w : W) (a : A) (w' : W)
      → with_tx db ctx f w ≡ (ok a, w')
      → IsCommitted ctx f w a w'
  unfolding with_tx
  with_tx-eq-ok ctx f w a w' h = elim (run_cases (db.begin w)) [
    | returns tx v e ↦ elim (run_cases (f (with_tx_value (C.with_tx ctx) tx) v)) [
      | returns b u q ↦ record {
        tx = tx;
        begun = v;
        worked = u;
        no_outer = ground arith;
        begins = e;
        works = ground arith;
        commits = ground arith;
      }
      | fails c u q ↦ absurd (ground arith)
      | panics p u q ↦ absurd (ground arith)
    ]
    | fails c v e ↦ absurd (ground arith)
    | panics p v e ↦ absurd (ground arith)
  ]

  pub with_tx_of_IsCommitted :
      (ctx : Ctx) (f : Ctx → Action W Error A) (w : W) (a : A) (w' : W)
      → IsCommitted ctx f w a w'
      → with_tx db ctx f w ≡ (ok a, w')
  unfolding with_tx
  with_tx_of_IsCommitted ctx f w a w' c = ground arith

  abbrev pub IsAtomic : {T : Type 0} → (W → T) → W → Result Error A × W → Type 0
  IsAtomic committed w (ok a, w') = Unit
  IsAtomic committed w (err e, w') =
      (committed w' ≡ committed w)
      ⊎ ((tx : ℕ) × (v : W) × (c : Error) × (db.commit tx v ≡ (err c, w'))
          × (e ≡ prefixed "cannot commit transaction" c))
  IsAtomic committed w (panic p, w') =
      (committed w' ≡ committed w)
      ⊎ ((tx : ℕ) × (v : W) × (q : String) × (v' : W) × (db.commit tx v ≡ (panic q, v'))
          × ((db.rollback tx v').1 ≡ w'))

  module _ {T : Type 0} (committed : W → T) (t : IsTransactional db committed) (ctx : Ctx)
      (f : Ctx → Action W Error A)
      (keeps : (tx : ℕ) (v : W)
        → committed (f (with_tx_value (C.with_tx ctx) tx) v).1 ≡ committed v)
      (w : W) where
    -- the callback has returned without an error
    commit-IsAtomic :
        (tx : ℕ) (v u : W) (a : A)
        → has_tx ctx ≡ false
        → db.begin w ≡ (ok tx, v)
        → f (with_tx_value (C.with_tx ctx) tx) v ≡ (ok a, u)
        → IsAtomic committed w (with_tx db ctx f w)
    unfolding with_tx
    commit-IsAtomic tx v u a none_yet e q = elim (run_cases (db.commit tx u)) [
      | returns _ x r ↦ ground arith
      | fails c x r ↦
          let e' : with_tx db ctx f w ≡ (err (prefixed "cannot commit transaction" c), x) =
            ground arith in
          rw e' (inr (tx, u, c, r, refl))
      | panics p x r ↦ elim (run_cases (db.rollback tx x)) [
        | returns _ y s ↦
            let e' : with_tx db ctx f w ≡ (panic p, y) = ground arith in
            rw e' (inr (tx, u, p, x, r, ap (λ z. z.1) s))
        | fails _ y s ↦
            let e' : with_tx db ctx f w ≡ (panic p, y) = ground arith in
            rw e' (inr (tx, u, p, x, r, ap (λ z. z.1) s))
        | panics p' y s ↦
            let e' : with_tx db ctx f w ≡ (panic p', y) = ground arith in
            rw e' (inr (tx, u, p, x, r, ap (λ z. z.1) s))
      ]
    ]

    begin-IsAtomic : has_tx ctx ≡ false → IsAtomic committed w (with_tx db ctx f w)
    unfolding with_tx
    begin-IsAtomic none_yet = elim (run_cases (db.begin w)) [
      | returns tx v e ↦ elim (run_cases (f (with_tx_value (C.with_tx ctx) tx) v)) [
        | returns a u q ↦ commit-IsAtomic tx v u a none_yet e q
        | fails c u q ↦ ground (
          arith,
          t.begin_keeps w,
          keeps tx v,
          t.rollback_keeps tx u,
          t.rollback_keeps tx (db.rollback tx u).1,
        )
        | panics p u q ↦ ground (arith, t.begin_keeps w, keeps tx v, t.rollback_keeps tx u)
      ]
      | fails c v e ↦ ground (arith, t.begin_keeps w)
      | panics p v e ↦ ground (arith, t.begin_keeps w)
    ]

    -- For a database whose open transactions are isolated, and a callback that does not touch the
    -- committed data: if WithTx ends with an error or a panic, the committed data are as before, or
    -- Commit was called and did not succeed; if it panicked, the last call was Rollback.
    pub with_tx-IsAtomic : IsAtomic committed w (with_tx db ctx f w)
    unfolding with_tx
    with_tx-IsAtomic = elim (Bool-cases (has_tx ctx)) [
      | inl nested ↦ ground arith
      | inr none_yet ↦ begin-IsAtomic none_yet
    ]
