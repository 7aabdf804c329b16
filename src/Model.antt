-- ===== src/Model.antt =====
-- SmartDashboard/src/model: the last value of each variable.
pub mod VariableStore
