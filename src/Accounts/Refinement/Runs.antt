-- ===== src/Accounts/Refinement/Runs.antt =====
-- Sequences of requests, of whichever users.
use finsplitter.Base.{ℕ, ◌≡◌, Option, none, List, [], ◌∷◌, All}
use finsplitter.Domain.Context.{Ctx}
use finsplitter.Ports.{UserRepository}
use finsplitter.Strings.{Unicode}
use finsplitter.Postgres.Driver.{Database, HasPgCodes}
use finsplitter.Postgres.User.{user_repository}
use finsplitter.Postgres.UserTable.{RunsUsers}
use finsplitter.Logto.{LogtoUserCreator, LogtoUserUpdater}
use finsplitter.Accounts.Spec.{AccountRequest, register, who_am_i, set_up, Call, Reply, Trace}
use finsplitter.Accounts.Spec.Invariant.{IsLinkedOnce, Trace-IsLinkedOnce}
use finsplitter.Accounts.Refinement.{RunsLogto, IsServed, serve}
use finsplitter.Traces.{
  IsPassage, ≡-IsPassage, History, quiet, next, Others, Others-IsPassage, History-from,
  History-alone, History-shared,
}
use finsplitter.Postgres.UserTable.Shared.{RunsAmid, RunsUsers-RunsAmid}
use mathlib.Core.List.{Sublist}
use finsplitter.Accounts.Spec.{Users, Step}
use finsplitter.Accounts.Refinement.Setup.{me-IsServed, setup-IsServed}
use finsplitter.Accounts.Refinement.Register.{register-IsServed}

module _ {W : Type 0} (u : Unicode) (users : UserRepository W) (creator : LogtoUserCreator W)
    (updater : LogtoUserUpdater W) where
  -- The requests in their order, each with the context that it comes with, and their responses
  unfoldable pub serve_all : List (Ctx × AccountRequest) → W → List (Call × Reply) × W
  serve_all [] w = ([], w)
  serve_all ((ctx, request) ∷ calls) w =
      let (reply, v) = serve u users creator updater ctx request w in
      let (replies, last) = serve_all calls v in (((ctx.claims, request), reply) ∷ replies, last)

-- No request is in a transaction.
abbrev pub AreOutside : List (Ctx × AccountRequest) → Type 0
AreOutside calls = All (λ call. call.0.tx ≡ none) calls

module _ {W : Type 0} (u : Unicode) (db : Database W) (codes : HasPgCodes db)
    (creator : LogtoUserCreator W) (updater : LogtoUserUpdater W) where
  module _ {amid : Users → Users → Type 0} (pass : IsPassage amid) (seen : W → Users)
      (runs : RunsAmid db amid seen) (logto : RunsLogto amid seen creator updater) where
    request-IsServed :
        (ctx : Ctx) (outside : ctx.tx ≡ none) (request : AccountRequest) (w : W)
        → IsServed u (user_repository db) creator updater amid seen ctx request w
    request-IsServed ctx outside (register input) w =
        register-IsServed u db codes creator updater pass seen runs logto ctx outside w input
    request-IsServed ctx outside who_am_i w =
        me-IsServed u db codes creator updater pass seen runs logto ctx outside w
    request-IsServed ctx outside (set_up body) w =
        setup-IsServed u db codes creator updater pass seen runs logto ctx outside w body

    pub serve_all-History :
        (calls : List (Ctx × AccountRequest)) (w : W)
        → AreOutside calls
        → History Step amid
            (seen w)
            (serve_all u (user_repository db) creator updater calls w).0
            (seen (serve_all u (user_repository db) creator updater calls w).1)
    unfolding serve_all
    serve_all-History [] w h = quiet (pass.nothing (seen w))
    serve_all-History ((ctx, request) ∷ calls) w (outside, h) =
        let served = request-IsServed ctx outside request w in
        rw served.serves (
          next served.comes served.steps
            (History-from Step pass served.leaves (serve_all-History calls served.after h)))

  -- While other clients send requests of their own that change the table, on a PostgreSQL server
  -- that is up, and with a Logto client whose calls return without an error of the domain: the
  -- registrations, profile setups and GET /auth/me of one client, none in a transaction, are
  -- answered, and with their responses and in their order they are part of one trace of the
  -- specification, from the rows at the start to those at the end. Whatever the clients do, no two
  -- local users are linked to the same user of the identity provider, if this is so at the start.
  pub account_calls_linear :
      (seen : W → Users) (runs : RunsAmid db (Others Step) seen)
      (logto : RunsLogto (Others Step) seen creator updater) (calls : List (Ctx × AccountRequest))
      (w : W)
      → AreOutside calls
      → IsLinkedOnce (seen w)
      → (all : List (Call × Reply)) × Trace
          (seen w)
          all
          (seen (serve_all u (user_repository db) creator updater calls w).1)
        × Sublist (serve_all u (user_repository db) creator updater calls w).0 all
        × IsLinkedOnce (seen (serve_all u (user_repository db) creator updater calls w).1)
  account_calls_linear seen runs logto calls w h start =
      let (all, trace, among) =
        History-shared Step (serve_all-History (Others-IsPassage Step) seen runs logto calls w h) in
      (all, trace, among, Trace-IsLinkedOnce trace start)

  module _ (sees : Option ℕ → W → Users) (runs : RunsUsers db sees)
      (logto : RunsLogto (λ a b. a ≡ b) (sees none) creator updater) where
    -- On a PostgreSQL server that is up and has no other clients, and with a Logto client whose calls
    -- return without an error of the domain and leave the table alone: any sequence of
    -- registrations, profile setups and GET /auth/me, none in a transaction, is answered, and the
    -- responses and the rows at the end are those of a trace of the specification.
    pub serve_all-Trace :
        (calls : List (Ctx × AccountRequest)) (w : W)
        → AreOutside calls
        → Trace
            (sees none w)
            (serve_all u (user_repository db) creator updater calls w).0
            (sees none (serve_all u (user_repository db) creator updater calls w).1)
    serve_all-Trace calls w h = History-alone Step (
        serve_all-History ≡-IsPassage (sees none) (RunsUsers-RunsAmid db sees runs) logto calls w h)
