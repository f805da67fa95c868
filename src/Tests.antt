-- ===== src/Tests.antt =====
-- The theorems at concrete inputs, in the environment of Env/Toy.antt.
pub mod Data
mod CryptoRuns
mod KeystoreRuns
mod ClientRuns
mod ReceiveRuns
mod WindowRuns
mod LoopRuns
mod InboxRuns
mod ChangeRuns
