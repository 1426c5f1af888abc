-- ===== src/Node.antt =====
-- election.go: the node, its coroutine and its API.
pub mod State
pub mod Peers
pub mod Addresses
pub mod World
pub mod Handlers
pub mod Follower
pub mod Candidate
pub mod Answers
pub mod Leader
pub mod Run
pub mod Stale
pub mod Steady
pub mod Phases
pub mod Rule
pub mod Published
pub mod Roles
pub mod Ballot
pub mod Votes
pub mod Elections
pub mod Leading
pub mod Alone
pub mod Elected
pub mod Lifecycle
pub mod Created
pub mod Visible
mod Tests
