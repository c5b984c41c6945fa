-- ===== src/Persistence.antt =====
-- persistence/repo.py: the ledger of work units that the long stages resume from.
pub mod WorkUnits
