-- ===== src/Xml.antt =====
-- lib/common/xml.c and xml.h: reading, holding and writing XML, and its texts.
pub mod Text
pub mod Element
pub mod Seed
pub mod Escape
pub mod Tag
pub mod Next
pub mod Attribute
pub mod Feed
mod Tests
