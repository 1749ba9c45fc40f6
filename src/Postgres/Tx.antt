-- ===== src/Postgres/Tx.antt =====
-- internal/gateways/postgres/tx.go
pub mod Laws
use finsplitter.Base.{ℕ, String, Option, if◌then◌else◌}
use finsplitter.Effects.{Result, ok, err, panic, Action, pure, fail, catch}
use finsplitter.Errs.{Error, plain, wrap_two, prefixed}
use finsplitter.Domain.Context as C
use finsplitter.Domain.Context.{Ctx, has_tx, with_tx_value}
use finsplitter.Ports.{Transactioner}
use finsplitter.Postgres.Driver.{Database}

-- The method querier: the transaction of the context, or else the pool.
unfoldable pub querier : Ctx → Option ℕ
querier ctx = ctx.tx

module _ {W : Type 0} (db : Database W) {A : Type 0} where
  -- The deferred function: after a panic it tries a rollback, whose error it drops, and panics again.
  on_panic_rollback : ℕ → Action W Error A → Action W Error A
  on_panic_rollback tx body w =
      let (r, w') = body w in
      elim r [
        | ok a ↦ (ok a, w')
        | err e ↦ (err e, w')
        | panic p ↦ catch (db.rollback tx) (λ _ v. (panic p, v)) (λ _ v. (panic p, v)) w'
      ]

  roll_back : ℕ → Error → Action W Error A
  roll_back tx e =
      catch (db.rollback tx) (λ _. fail e)
        (λ rollback_err.
          fail (
            wrap_two "rollback failed after transaction error: " rollback_err " (original: " e ")"))

  commit : ℕ → A → Action W Error A
  commit tx a =
      catch (db.commit tx) (λ _. pure a) (λ e. fail (prefixed "cannot commit transaction" e))

  -- what follows a successful Begin
  run_in_tx : Ctx → (Ctx → Action W Error A) → ℕ → Action W Error A
  run_in_tx ctx f tx =
      on_panic_rollback tx (catch (f (with_tx_value (C.with_tx ctx) tx)) (commit tx) (roll_back tx))

  unfoldable pub with_tx : Ctx → (Ctx → Action W Error A) → Action W Error A
  unfolding on_panic_rollback roll_back commit run_in_tx has_tx
  with_tx ctx f =
      if has_tx ctx
      then fail (plain "already in transaction")
      else catch db.begin (run_in_tx ctx f) (λ e. fail (prefixed "cannot begin a transaction" e))

  abbrev pub tx_manager : Transactioner W A
  tx_manager = record { with_tx = with_tx }
