-- ===== src/Shipment.antt =====
-- Validating a rate snapshot and making the shipment request from it: service/shipping_service.go.
pub mod Phone
pub mod Postal
pub mod Validate
pub mod Payload
pub mod Request
