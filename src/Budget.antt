-- ===== src/Budget.antt =====
-- services/budget-service: budgets, whose amount and source only budget managers see.
pub mod Repo
pub mod Handler
pub mod View
pub mod Tests
