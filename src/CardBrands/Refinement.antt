-- ===== src/CardBrands/Refinement.antt =====
-- The API on a PostgreSQL server that is up does what the specification says.
pub mod Calls
pub mod Writes
pub mod Requests
pub mod Runs
pub mod Observed
use finsplitter.Base.{ℕ, String, ◌≡◌, refl, sym, ◌∙◌, false, Option, none, some}
use finsplitter.Effects.{ok, err}
use finsplitter.Domain.Context.{Ctx, has_tx}
use finsplitter.Postgres.Driver.{Database, HasPgCodes}
use finsplitter.Postgres.Table.{Schema, Rows, TxState, RunsTable}
use finsplitter.CardBrands.Routes.{CardBrandRequest, serve}
use finsplitter.CardBrands.Spec.{Reply, Step}

-- The context of a request that is in no transaction
pub record IsFresh (ctx : Ctx) : Type 0 where
  pub no_outer : has_tx ctx ≡ false
  pub no_tx : ctx.tx ≡ none

-- The request is answered as the specification says, at one point in time: `rows` are the rows at
-- that time, which other connections made of those at the start, and `table` becomes those at the end.
module _ {W : Type 0} (db : Database W) (s : Schema) (amid : Rows → Rows → Type 0)
    (committed : W → Rows) where
  pub record IsServed (ctx : Ctx) (request : CardBrandRequest) (w : W) : Type 0 where
    pub reply : Reply
    pub after : W
    pub rows : Rows
    pub table : Rows
    pub serves : serve db ctx request w ≡ (reply, after)
    pub comes : amid (committed w) rows
    pub steps : Step s rows request reply table
    pub leaves : amid table (committed after)
