-- ===== src/Tests.antt =====
-- Tests on concrete data, by the module they are about.
mod AuthTests
mod ScanTests
mod ContentTests
mod RuntimeTests
mod PackagesTests
mod RoutingTests
mod ArchVersionTests
