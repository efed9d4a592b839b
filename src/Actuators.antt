-- ===== src/Actuators.antt =====
-- backend/app/actuators/contract.py and actuate.py, and backend/app/db/adapters/action_store.py:
-- one side effect, claimed in the ledger, performed and settled.
-- The ledger is the table `actions`: its unique index on the key is global, and a session sees the
-- rows of its own tenant. The clock of a row is a number of seconds. An integration is a parameter;
-- what it answers may depend on all the calls before. The derived key is a parameter: a digest of
-- the content by the standard library's SHA-256 over JSON.
pub mod Ledger
pub mod Actuate
pub mod Interleaving
mod Samples
