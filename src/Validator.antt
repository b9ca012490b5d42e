-- ===== src/Validator.antt =====
-- internal/validator: the pre-flight correctness gate. Validator/Scenarios holds the fixed test cases,
-- Validator/Compare the comparison of one fill, Validator/Run the two ways to run a scenario, and `Run`.
pub mod Scenarios
pub mod Compare
pub mod Run
