-- ===== src/Server.antt =====
-- sas-server: the streaming server. Of sas-server/src, Address, Session, Table and Machine are
-- session.c, Wav is formats/wav.c, Sink is sink.c, Loop is server.c and Program is main.c;
-- Invariant is about all of these at once, and Samples is data that tests share.
pub mod Address
pub mod Session
pub mod Wav
pub mod Samples
pub mod Sink
pub mod Table
pub mod Machine
pub mod Invariant
pub mod Loop
pub mod Program
mod Tests
