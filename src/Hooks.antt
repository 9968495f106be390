-- ===== src/Hooks.antt =====
-- Hooks of src/front-end/src/presentation/hooks: requests that overtake one another, and the polling of the
-- accelerator's health; and the toasts of src/front-end/src/presentation/context/toast-context.tsx.
pub mod AsyncGrpc
pub mod HealthPoll
pub mod Toasts
mod Tests
