-- ===== src/Tests.antt =====
-- The theorems at concrete inputs.
mod AuthTests
mod AccountTests
mod VideoTests
mod ServiceTests
mod OverlapTests
mod SharingTests
mod RaceTests
mod FormTests
mod DatabaseTests
mod ConfigTests
