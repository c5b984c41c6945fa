-- ===== src/ControlPlane.antt =====
-- controlplane/: the background jobs of the long stages (jobs.py), and the stages of the journey with
-- the gates that they publish (stages.py, gates_util.py).
pub mod Jobs
pub mod Gates
