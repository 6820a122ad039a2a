-- ===== src/Sip.antt =====
-- lib/proto/sip/sip.c: conversion of SIP messages between the structs of the SIP parser library
-- (`Osip`) and those of the protocol buffers (`Proto`).
pub mod Alloc
pub mod Osip
pub mod Proto
pub mod Header
pub mod Head
pub mod Reason
pub mod Sdp
mod Tests
