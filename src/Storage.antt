-- ===== src/Storage.antt =====
-- backend/app/storage: the rows of models.py, the database as one value, and the transaction monad.
pub mod Rows
pub mod Tables
pub mod Values
pub mod Database
pub mod Repositories
