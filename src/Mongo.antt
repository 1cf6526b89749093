-- ===== src/Mongo.antt =====
-- The MongoDB protocol: mindsdb/api/mongo/server.py and the classes and responders beside it.
pub mod Socket
pub mod Responders
pub mod Reply
pub mod Request
pub mod Scram
pub mod Sasl
pub mod Predictors
pub mod Insert
mod Tests
mod LoginTests
mod RequestTests
mod InsertTests
