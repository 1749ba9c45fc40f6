-- ===== src/Postgres/Migrations.antt =====
-- internal/gateways/postgres/migrations/migrate.go, over database/sql and golang-migrate, which are
-- a parameter.
use finsplitter.Base.{
  String, ◌+++◌, ◌≡◌, Bool, true, Option, none, some, arith, Bool-cases, inl, inr, if◌then◌else◌,
}
use finsplitter.Effects.{Result, ok, err, Action, fail, catch, deferring}
use finsplitter.Effects.Laws.{run_cases, returns, fails, panics}
use finsplitter.Errs.{Error, prefixed}

-- `D` are connections, `V` drivers and `M` migrate instances. `close` returns an error for the source
-- and one for the database; `is_no_change` is errors.Is for migrate.ErrNoChange.
pub record MigratePackage (W D V M : Type 0) : Type 0 where
  pub open_db : String → Action W Error D
  pub close_db : D → W → W
  pub with_instance : D → String → Action W Error V
  pub close_driver : V → W → W
  pub new_instance : String → V → Action W Error M
  pub up : M → Action W Error (Unit {0})
  pub close : M → W → (Option Error × Option Error) × W
  pub is_no_change : Error → Bool

module _ {W D V M : Type 0} (mp : MigratePackage W D V M) where
  unfoldable pub close_migration : M → Action W Error (Unit {0})
  close_migration m w =
      let ((source_err, db_err), v) = mp.close m w in
      elim source_err as (λ _. Result Error (Unit {0}) × W) [
        | some e ↦ (err (prefixed "migration source error" e), v)
        | none ↦ elim db_err as (λ _. Result Error (Unit {0}) × W) [
          | some e ↦ (err (prefixed "migration database error" e), v)
          | none ↦ (ok tt, v)
        ]
      ]

  unfoldable pub apply_migrations : M → Action W Error (Unit {0})
  unfolding close_migration
  apply_migrations m =
      catch (mp.up m) (λ _. close_migration m)
        (λ e.
          if mp.is_no_change e
          then close_migration m
          else fail (prefixed "failed to apply migrations" e))

  unfoldable pub migrate_with : String → V → Action W Error (Unit {0})
  unfolding apply_migrations
  migrate_with path driver =
      catch (mp.new_instance ("file://" +++ path) driver) apply_migrations
        (λ e. fail (prefixed "failed to create migrate instance" e))

  unfoldable pub run_migrations : (conn_string schema path : String) → Action W Error (Unit {0})
  unfolding migrate_with
  run_migrations conn_string schema path =
      catch (mp.open_db conn_string)
        (λ db. deferring (mp.close_db db) (
          catch (mp.with_instance db schema)
            (λ driver. deferring (mp.close_driver driver) (migrate_with path driver))
            (λ e. fail (prefixed "failed to create migrate pgx database driver instance" e))))
        (λ e. fail (prefixed "failed to open database" e))

  -- The migrations are in place: Up succeeded, or found nothing to do.
  pub data IsUp (m : M) (w v : W) : Type 0 where
    applied : mp.up m w ≡ (ok tt, v) → IsUp m w v
    unchanged : (e : Error) → mp.up m w ≡ (err e, v) → mp.is_no_change e ≡ true → IsUp m w v

  pub apply_migrations-IsUp :
      (m : M) (w v : W)
      → apply_migrations m w ≡ (ok tt, v)
      → (x : W) × IsUp m w x × (mp.close m x ≡ ((none, none), v))
  unfolding apply_migrations close_migration
  apply_migrations-IsUp m w v h = elim (run_cases (mp.up m w)) [
    | returns u x q ↦ (x, applied (ground arith), ground arith)
    | fails e x q ↦ elim (Bool-cases (mp.is_no_change e)) [
      | inl same ↦ (x, unchanged e q same, ground arith)
      | inr other ↦ absurd (ground arith)
    ]
    | panics p x q ↦ absurd (ground arith)
  ]

  -- The steps of RunMigrations, in their order, each on what the one before has left: the
  -- connection to `conn_string`, its driver for `schema`, the migrations in the files at `path`.
  pub record IsMigrated (conn_string schema path : String) (w v : W) : Type 0 where
    pub db : D
    pub driver : V
    pub instance : M
    pub connected : W
    pub driven : W
    pub created : W
    pub migrated : W
    pub closed : W
    pub opens : mp.open_db conn_string w ≡ (ok db, connected)
    pub drives : mp.with_instance db schema connected ≡ (ok driver, driven)
    pub creates : mp.new_instance ("file://" +++ path) driver driven ≡ (ok instance, created)
    pub up : IsUp instance created migrated
    pub closes : mp.close instance migrated ≡ ((none, none), closed)
    pub ends : v ≡ mp.close_db db (mp.close_driver driver closed)

  -- RunMigrations returns no error only if the connection, the driver for the schema and the
  -- migrations at the path were opened, Up succeeded or found nothing to do, and closing it
  -- reported no error; the driver and then the connection have been closed at the end.
  pub run_migrations-IsMigrated :
      (conn_string schema path : String) (w v : W)
      → run_migrations conn_string schema path w ≡ (ok tt, v)
      → IsMigrated conn_string schema path w v
  unfolding run_migrations migrate_with
  run_migrations-IsMigrated conn_string schema path w v h =
      elim (run_cases (mp.open_db conn_string w)) [
        | returns db a p ↦ elim (run_cases (mp.with_instance db schema a)) [
          | returns driver b q ↦ elim (run_cases (mp.new_instance ("file://" +++ path) driver b)) [
            | returns m x r ↦ elim (run_cases (apply_migrations m x)) [
              | returns u z s ↦
                  let (y, up, closed) = apply_migrations-IsUp m x z (ground arith) in
                  record {
                    db = db;
                    driver = driver;
                    instance = m;
                    connected = a;
                    driven = b;
                    created = x;
                    migrated = y;
                    closed = z;
                    opens = p;
                    drives = q;
                    creates = r;
                    up = up;
                    closes = closed;
                    ends = ground arith;
                  }
              | fails e z s ↦ absurd (ground arith)
              | panics e z s ↦ absurd (ground arith)
            ]
            | fails e x r ↦ absurd (ground arith)
            | panics e x r ↦ absurd (ground arith)
          ]
          | fails e b q ↦ absurd (ground arith)
          | panics e b q ↦ absurd (ground arith)
        ]
        | fails e a p ↦ absurd (ground arith)
        | panics e a p ↦ absurd (ground arith)
      ]
