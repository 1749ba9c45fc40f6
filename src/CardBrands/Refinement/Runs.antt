-- ===== src/CardBrands/Refinement/Runs.antt =====
-- Sequences of requests, of one client alone or among others.
use mathlib.Core.List.{Sublist}
use finsplitter.Base.{ℕ, List, [], ◌∷◌, All}
use finsplitter.Domain.Context.{Ctx}
use finsplitter.Postgres.Driver.{Database, HasPgCodes}
use finsplitter.Postgres.Table.{Schema, Rows, TxState, RunsTable, RunsShared}
use finsplitter.CardBrands.Routes.{CardBrandRequest, serve}
use finsplitter.CardBrands.Spec.{Reply, Step, Trace}
use finsplitter.CardBrands.Spec.Invariant.{IsCatalogue, Trace-IsCatalogue}
use finsplitter.Traces.{
  IsPassage, ≡-IsPassage, History, quiet, next, Others, Others-IsPassage, History-from,
  History-alone, History-shared,
}
use finsplitter.CardBrands.Refinement.{IsFresh}
use finsplitter.CardBrands.Refinement.Requests.{serve_refines}

module _ {W : Type 0} (db : Database W) where
  -- The requests in their order, each with the context that it comes with, and their responses
  unfoldable pub serve_all : List (Ctx × CardBrandRequest) → W → List (CardBrandRequest × Reply) × W
  serve_all [] w = ([], w)
  serve_all ((ctx, request) ∷ calls) w =
      let (reply, v) = serve db ctx request w in
      let (replies, last) = serve_all calls v in ((request, reply) ∷ replies, last)

  module _ (codes : HasPgCodes db) (s : Schema) where
    serve_all-History :
        {amid : Rows → Rows → Type 0} (pass : IsPassage amid) (committed : W → Rows)
        (state : ℕ → W → TxState) (runs : RunsShared db s amid committed state)
        (calls : List (Ctx × CardBrandRequest)) (w : W)
        → All (λ call. IsFresh call.0) calls
        → History
            (Step s)
            amid
            (committed w)
            (serve_all calls w).0
            (committed (serve_all calls w).1)
    unfolding serve_all
    serve_all-History pass committed state runs [] w h = quiet (pass.nothing (committed w))
    serve_all-History {amid} pass committed state runs ((ctx, request) ∷ calls) w (fresh, h) =
        let served = serve_refines db codes s pass committed state runs ctx fresh w request in
        rw served.serves (
          next served.comes served.steps (
            History-from (Step s) pass served.leaves
              (serve_all-History pass committed state runs calls served.after h)))

    module _ (committed : W → Rows) (state : ℕ → W → TxState) where
      -- On a PostgreSQL server that is up, any sequence of requests, none in a transaction of its
      -- own, is answered, and the responses and the rows that are committed at the end are those of
      -- a trace of the specification from the rows committed at the start.
      pub serve_all_refines :
          (runs : RunsTable db s committed state) (calls : List (Ctx × CardBrandRequest)) (w : W)
          → All (λ call. IsFresh call.0) calls
          → Trace s (committed w) (serve_all calls w).0 (committed (serve_all calls w).1)
      serve_all_refines runs calls w h =
          History-alone (Step s) (serve_all-History ≡-IsPassage committed state runs.0 calls w h)

      -- On a PostgreSQL server that is up, whatever the sequence of requests, every ID and, up to case, every name
      -- occurs once in the table and no name is empty, if this is so at the start.
      pub serve_all-IsCatalogue :
          (runs : RunsTable db s committed state) (calls : List (Ctx × CardBrandRequest)) (w : W)
          → All (λ call. IsFresh call.0) calls
          → IsCatalogue s (committed w)
          → IsCatalogue s (committed (serve_all calls w).1)
      serve_all-IsCatalogue runs calls w h start =
          Trace-IsCatalogue s (serve_all_refines runs calls w h) start

      -- While other clients send requests of their own to the same table, on a server that keeps
      -- changed rows and names locked until the end of a transaction: the requests of one client, none in a transaction of its own, are answered, and with their
      -- responses and in their order they are part of one trace of the specification, from the rows
      -- committed at the start to those committed at the end. Whatever the clients do, every ID and,
      -- up to case, every name occurs once in the table and no name is empty, if this is so at the
      -- start.
      pub serve_all_linear :
          (runs : RunsShared db s (Others (Step s)) committed state)
          (calls : List (Ctx × CardBrandRequest)) (w : W)
          → All (λ call. IsFresh call.0) calls
          → IsCatalogue s (committed w)
          → (all : List (CardBrandRequest × Reply)) × Trace s
              (committed w)
              all
              (committed (serve_all calls w).1)
            × Sublist (serve_all calls w).0 all
            × IsCatalogue s (committed (serve_all calls w).1)
      serve_all_linear runs calls w h start =
          let (all, trace, among) =
            History-shared (Step s)
              (serve_all-History (Others-IsPassage (Step s)) committed state runs calls w h) in
          (all, trace, among, Trace-IsCatalogue s trace start)
