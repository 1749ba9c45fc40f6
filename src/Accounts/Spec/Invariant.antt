-- ===== src/Accounts/Spec/Invariant.antt =====
-- What holds of the table of users between two requests, and what a request never changes.
use finsplitter.Base.{
  String, ◌==◌, ◌≡◌, none, some, List, [], ◌∷◌, arith, eq_iff, Bool-cases, inl, inr,
}
use finsplitter.Postgres.Driver.{UserRow}
use finsplitter.Postgres.UserTable.{find_logto}
use finsplitter.Accounts.Spec.{
  Call, Reply, Users, Step, Trace, stop, step, registers, registers_linked, registers_refused,
  tells_nobody, tells, tells_unknown, sets_up_nobody, sets_up_nameless, sets_up, sets_up_known,
  sets_up_refused,
}

-- No two rows are linked to the same user of the identity provider.
abbrev pub IsLinkedOnce : Users → Type 0
IsLinkedOnce [] = Unit {0}
IsLinkedOnce (row ∷ rows) =
    ((id : String) → row.logto_user_id ≡ some id → find_logto id rows ≡ none) × IsLinkedOnce rows

-- A row for another ID hides none.
find_logto-cons :
    (id j : String) (row new : UserRow) (rows : Users)
    → new.logto_user_id ≡ some j
    → find_logto j rows ≡ none
    → find_logto id rows ≡ some row
    → find_logto id (new ∷ rows) ≡ some row
find_logto-cons id j row new rows named fresh there = elim (Bool-cases (j == id)) [
  | inl same ↦ let one : j ≡ id = ground (arith, eq_iff j id) in absurd (ground (arith, one))
  | inr other ↦ ground arith
]

named_once :
    (j : String) (new : UserRow) (rows : Users)
    → new.logto_user_id ≡ some j
    → find_logto j rows ≡ none
    → IsLinkedOnce rows
    → IsLinkedOnce (new ∷ rows)
named_once j new rows named fresh h = ((λ id q. ground (arith, named, q, fresh)), h)

Step-IsLinkedOnce :
    {rows : Users} {call : Call} {reply : Reply} {next : Users}
    → Step rows call reply next
    → IsLinkedOnce rows
    → IsLinkedOnce next
Step-IsLinkedOnce {rows = rows} (registers _ _ id row named fresh) h =
    named_once id row rows named fresh h
Step-IsLinkedOnce (registers_linked _ _ _ _ _) h = h
Step-IsLinkedOnce (registers_refused _ _ _ _) h = h
Step-IsLinkedOnce tells_nobody h = h
Step-IsLinkedOnce (tells _ _ _) h = h
Step-IsLinkedOnce (tells_unknown _ _) h = h
Step-IsLinkedOnce (sets_up_nobody _) h = h
Step-IsLinkedOnce (sets_up_nameless _ _ _) h = h
Step-IsLinkedOnce {rows = rows} (sets_up claims _ row _ fresh named) h =
    named_once claims.sub row rows named fresh h
Step-IsLinkedOnce (sets_up_known _ _ _ _ _) h = h
Step-IsLinkedOnce (sets_up_refused _ _ _ _) h = h

pub Trace-IsLinkedOnce :
    {rows : Users} {seen : List (Call × Reply)} {last : Users}
    → Trace rows seen last
    → IsLinkedOnce rows
    → IsLinkedOnce last
Trace-IsLinkedOnce stop h = h
Trace-IsLinkedOnce (step s t) h = Trace-IsLinkedOnce t (Step-IsLinkedOnce s h)

module _ (id : String) (row : UserRow) where
  Step-find_logto :
      {rows : Users} {call : Call} {reply : Reply} {next : Users}
      → Step rows call reply next
      → find_logto id rows ≡ some row
      → find_logto id next ≡ some row
  Step-find_logto {rows = rows} (registers _ _ j new named fresh) h =
      find_logto-cons id j row new rows named fresh h
  Step-find_logto (registers_linked _ _ _ _ _) h = h
  Step-find_logto (registers_refused _ _ _ _) h = h
  Step-find_logto tells_nobody h = h
  Step-find_logto (tells _ _ _) h = h
  Step-find_logto (tells_unknown _ _) h = h
  Step-find_logto (sets_up_nobody _) h = h
  Step-find_logto (sets_up_nameless _ _ _) h = h
  Step-find_logto {rows = rows} (sets_up claims _ new _ fresh named) h =
      find_logto-cons id claims.sub row new rows named fresh h
  Step-find_logto (sets_up_known _ _ _ _ _) h = h
  Step-find_logto (sets_up_refused _ _ _ _) h = h

  pub Trace-find_logto :
      {rows : Users} {seen : List (Call × Reply)} {last : Users}
      → Trace rows seen last
      → find_logto id rows ≡ some row
      → find_logto id last ≡ some row
  Trace-find_logto stop h = h
  Trace-find_logto (step s t) h = Trace-find_logto t (Step-find_logto s h)
