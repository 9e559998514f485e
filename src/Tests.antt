-- ===== src/Tests.antt =====
-- Concrete chains, keys and states for the tests, and the theorems at concrete inputs.
mod Data
mod StateTests
mod BundleTests
mod StoreTests
mod KeyTests
mod NodeData
mod NodeTests
mod LifeTests
mod NetTests
mod RelayTests
mod WireTests
mod HostTests
mod OpenTests
mod DepositTests
mod MainData
mod MainTests
