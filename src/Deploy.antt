-- ===== src/Deploy.antt =====
-- deploy/: the routing point (routing.py), the automatic rollback (rollback.py), the canary
-- lifecycle over both (canary.py), its inputs (models.py, smoke.py, perf_baseline.py), and the
-- checks on commits (fitness.py, stoppable.py).
pub mod Routing
pub mod Evidence
pub mod Rollback
pub mod Canary
pub mod Fitness
