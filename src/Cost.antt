-- ===== src/Cost.antt =====
-- cost/: the ledger and its caps (policy.py), the verifier around one run (verifier.py), and the
-- choice of model and turn budget by role and size (tiering.py, scaling.py).
pub mod Policy
pub mod Verifier
pub mod Scaling
