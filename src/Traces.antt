-- ===== src/Traces.antt =====
-- Sequences of requests to a shared state, each with its response, and the requests of one client
-- among those of others.
use mathlib.Core.List.{Sublist, nil-sublist, sublist-append_right}
use mathlib.Core.List.Sublist as Sub
use finsplitter.Base.{◌≡◌, refl, ◌∙◌, List, [], ◌∷◌, ◌++◌}

-- What others can make of the state meanwhile
pub record IsPassage {S : Type 0} (amid : S → S → Type 0) : Type 0 where
  pub nothing : (s : S) → amid s s
  pub both : {a b c : S} → amid a b → amid b c → amid a c

pub ≡-IsPassage : {S : Type 0} → IsPassage {S = S} (λ a b. a ≡ b)
≡-IsPassage = record { nothing = λ s. refl; both = λ h k. h ∙ k }

module _ {S C R : Type 0} (Step : S → C → R → S → Type 0) where
  -- Calls with their responses, from one state to another
  pub data Trace : S → List (C × R) → S → Type 0 where
    stop : {s : S} → Trace s [] s
    step :
        {s next last : S} {call : C} {reply : R} {rest : List (C × R)}
        → Step s call reply next
        → Trace next rest last
        → Trace s ((call, reply) ∷ rest) last

  -- The calls of a client with their responses; between them, and at both ends, the state changes by
  -- `amid`.
  pub data History (amid : S → S → Type 0) : S → List (C × R) → S → Type 0 where
    quiet : {s last : S} → amid s last → History amid s [] last
    next :
        {s at after last : S} {call : C} {reply : R} {rest : List (C × R)}
        → amid s at
        → Step at call reply after
        → History amid after rest last
        → History amid s ((call, reply) ∷ rest) last

  pub History-from :
      {amid : S → S → Type 0} {a b last : S} {calls : List (C × R)}
      → IsPassage amid
      → amid a b
      → History amid b calls last
      → History amid a calls last
  History-from pass before (quiet rest) = quiet (pass.both before rest)
  History-from pass before (next comes first rest) = next (pass.both before comes) first rest

  -- What other clients can do
  abbrev pub Others : S → S → Type 0
  Others s last = (calls : List (C × R)) × Trace s calls last

  Trace-append :
      {a b c : S} {xs ys : List (C × R)} → Trace a xs b → Trace b ys c → Trace a (xs ++ ys) c
  Trace-append stop k = k
  Trace-append (step first rest) k = step first (Trace-append rest k)

  pub Others-IsPassage : IsPassage Others
  Others-IsPassage = record {
    nothing = λ s. ([], stop);
    both = λ (xs, h) (ys, k). (xs ++ ys, Trace-append h k);
  }

  -- With nobody else there, a history is a trace.
  pub History-alone :
      {s last : S} {calls : List (C × R)} → History (λ a b. a ≡ b) s calls last → Trace s calls last
  History-alone (quiet same) = rw same stop
  History-alone (next same first rest) = rw same (step first (History-alone rest))

  -- With other clients there, it is part of a trace.
  pub History-shared :
      {s last : S} {calls : List (C × R)}
      → History Others s calls last
      → (all : List (C × R)) × Trace s all last × Sublist calls all
  History-shared (quiet (all, trace)) = (all, trace, nil-sublist all)
  History-shared (next {call = call} {reply = reply} (before, trace) first rest) =
      let (all, after, among) = History-shared rest in
      (
        before ++ ((call, reply) ∷ all),
        Trace-append trace (step first after),
        Sub.trans (Sub.cons-cons (call, reply) among)
            (sublist-append_right before ((call, reply) ∷ all)),
      )
