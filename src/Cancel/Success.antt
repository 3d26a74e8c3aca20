-- ===== src/Cancel/Success.antt =====
-- When `cancelOrder` of src/exchange_service.cpp goes through.
