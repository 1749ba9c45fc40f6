-- ===== src/Postgres/User.antt =====
-- internal/gateways/postgres/user.go (log lines are left out)
use finsplitter.Base.{String, Bool, Option, none, some, get_or, if◌then◌else◌}
use finsplitter.Effects.{Action, pure, fail, catch}
use finsplitter.Errs.{Error, sentinel, is, prefixed, duplicate, not_found, no_rows}
use finsplitter.Domain.{Uuid, User}
use finsplitter.Domain.Context.{Ctx}
use finsplitter.Ports.{UserRepository}
use finsplitter.Postgres.Driver.{Database, Timestamptz, UserRow}
use finsplitter.Postgres.CardBrand.{integrity_code}
use finsplitter.Postgres.Sqlc

unfoldable pub new_user_from_row : Uuid → Option String → Timestamptz → Timestamptz → User
new_user_from_row id logto_user_id created_date last_modified_date = record {
  id = id;
  logto_user_id = get_or logto_user_id "";
  created_date = created_date.time;
  last_modified_date = if last_modified_date.valid then last_modified_date.time else 0;
}

abbrev pub user_of : UserRow → User
user_of row = new_user_from_row row.id row.logto_user_id row.created_date row.last_modified_date

abbrev lookup_error : String → Error → Error
lookup_error op e = if is e no_rows then sentinel not_found else prefixed op e

module _ {W : Type 0} (db : Database W) where
  unfoldable pub create_error : Error → Error
  create_error e = elim (integrity_code db e) [
    | none ↦ prefixed "create user" e
    | some _ ↦ sentinel duplicate
  ]

  unfoldable pub create : Ctx → String → Action W Error User
  unfolding Sqlc.create_user new_user_from_row create_error
  create ctx logto_user_id =
      catch (Sqlc.create_user db ctx (some logto_user_id)) (λ row. pure (user_of row))
        (λ e. fail (create_error e))

  unfoldable pub get_by_id : Ctx → Uuid → Action W Error User
  unfolding Sqlc.get_user_by_id new_user_from_row
  get_by_id ctx id =
      catch (Sqlc.get_user_by_id db ctx id) (λ row. pure (user_of row))
        (λ e. fail (lookup_error "get user by id" e))

  unfoldable pub get_by_logto_user_id : Ctx → String → Action W Error User
  unfolding Sqlc.get_user_by_logto_user_id new_user_from_row
  get_by_logto_user_id ctx logto_user_id =
      catch (Sqlc.get_user_by_logto_user_id db ctx (some logto_user_id)) (λ row. pure (user_of row))
        (λ e. fail (lookup_error "get user by logto_user_id" e))

  unfoldable pub exists_by_logto_user_id : Ctx → String → Action W Error Bool
  unfolding Sqlc.exists_by_logto_user_id
  exists_by_logto_user_id ctx logto_user_id =
      catch (Sqlc.exists_by_logto_user_id db ctx (some logto_user_id)) pure
        (λ e. fail (prefixed "exists by logto_user_id" e))

  abbrev pub user_repository : UserRepository W
  user_repository = record {
    create = create;
    get_by_id = get_by_id;
    get_by_logto_user_id = get_by_logto_user_id;
    exists_by_logto_user_id = exists_by_logto_user_id;
  }
