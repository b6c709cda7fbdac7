-- ===== src/Calendar.antt =====
-- hw12_13_14_15_16_calendar/internal: the calendar service.
pub mod Event
pub mod Memory
