-- ===== src/Tests.antt =====
-- The theorems at concrete inputs.
mod DomainTests
mod ApplicationTests
mod StorageTests
mod StoreTests
mod CaptureTests
mod ListingTests
mod HistoryTests
mod ConfigTests
mod CursorTests
