-- ===== src/Postgres.antt =====
-- internal/gateways/postgres: the transaction manager, the generated queries and the two
-- repositories, over a database driver that is a parameter.
pub mod Driver
pub mod Table
pub mod Tx
pub mod Sqlc
pub mod CardBrand
pub mod User
pub mod UserTable
pub mod Migrations
pub mod Pool
