-- ===== src/Envelope.antt =====
-- rmake/messagebus/envelope.py: a message on the wire is a lead, the header and the payload. They
-- are read and written in whatever pieces the socket takes. A byte is a number.
pub mod Writer
pub mod Processor
pub mod Header
mod Tests
