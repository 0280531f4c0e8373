-- ===== src/Tests.antt =====
-- Concrete runs of the model, and the theorems applied to concrete inputs.
mod Formats
mod Sending
mod Control
mod Inputs
mod Importing
mod Rendering
mod Logging
mod Network
