-- ===== src/StoryRunner/Lifecycle/Fallback.antt =====
-- The deterministic implementation in place of an agent's.
mod Examples
use cobol_java_migrator_v.Prelude.{◌-◌, nat_eq, string_eq, pair_eq, option_eq}
