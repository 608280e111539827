-- ===== src/Contracts.antt =====
-- packages/contracts/src/contracts: the data that the services share.
mod State
mod Run
mod Validity
mod Event
mod Command
pub use State.*
pub use Run.*
pub use Validity.*
pub use Event.*
pub use Command.*
unfoldable pub use Run.{is_valid_run}
unfoldable pub use Event.{is_valid_outbox}
unfoldable pub use Command.{operation}
