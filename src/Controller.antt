-- ===== src/Controller.antt =====
-- controller/cliente_controller.c
pub mod Jansson
pub mod Validation
pub mod Url
pub mod Response
pub mod Handlers
