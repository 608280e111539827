-- ===== src/Examples.antt =====
-- Concrete inputs on which the theorems are applied, one module for each part of the program.
mod Data
mod Walk
mod RunTests
mod WorkflowTests
mod OutboxTests
mod ApprovalTests
mod AuditTests
mod GenerationTests
mod PolicyTests
mod ReaperTests
mod PublisherTests
mod BrokerTests
mod ExecuteTests
