-- ===== src/Flash.antt =====
-- Flash delivery (src/long_haul/work/flash_delivery.py and flash_storage.py).
pub mod Clock
pub mod Exec
pub mod Fixture
pub mod Http
pub mod Storage
