-- ===== src/Tests.antt =====
-- Concrete inputs: each result with a hypothesis or a parameter is applied to some.
mod Data
mod EngineTests
mod NuzzleTests
mod PumpTests
mod NetworkTests
mod TransferTests
mod LinkTests
mod SystemTests
mod ProgramTests
mod ConnectionTests
mod CalmTests
mod ServerTests
mod BodyTests
