-- ===== src/Model.antt =====
-- internal/model: the declarations of a suite, as the parser hands them over.
pub mod Expression
pub mod Http
pub mod Local
pub mod Services
pub mod Ui
pub mod Step
