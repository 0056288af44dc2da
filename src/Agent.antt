-- ===== src/Agent.antt =====
-- The agent, app/agents: one request of a user, from the message to the answer.
pub mod State
pub mod World
pub mod Prompts
pub mod Nodes
pub mod Graph
pub mod Runner
pub mod Trail
pub mod Steps
pub mod Moves
pub mod Loop
pub mod Reference
pub mod Runs
pub mod Returns
pub mod Promises
pub mod Resumption
pub mod Proposals
pub mod Offered
mod Tests
